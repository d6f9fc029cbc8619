-- ===== src/Template/Missing.antt =====
-- Keys without a value in the templates of internal/template/render.go.
use Prim.Native.Nat.{ℕ, zero, suc, ◌+◌, ◌≤◌}
use Prim.Native.Char.{Char, code}
use Prim.Native.String.{String, [], ◌∷◌, ◌++◌ as ◌<>◌, count}
use mathlib.Core.List
use text.Mathlib.TextLemmas.{nil-append, cons-append, length-cons}
use namespace_class.Base.{
  ◌≡◌, ◌≢◌, refl, sym, ◌∙◌, ap, arith, true, false, Bool-cases, Option, none, some, inl, inr, ◌==◌,
}
use namespace_class.Base.Chars.{trim_space}
use namespace_class.Base.Dict.{Dict, get}
use namespace_class.Errors.{ok}
use namespace_class.Template.{
  Rendered, is_brace, run, after_run, closes, token, replace_token, replace_all, emit, more, result,
  render_string,
}
use namespace_class.Template.Laws.{
  IsBody, opening, braced, braced_lem, replace_all-cons, replace_all-braced, missing-replace_token,
}

not_closed : (t : String) → closes (opening ∷ t) ≢ true
unfolding closes
not_closed [] h = cc h
not_closed (d ∷ t) h = cc h

closed_at_once :
    (c : Char) (s t : String) → closes (c ∷ (s <> (opening ∷ t))) ≡ true → 2 ≤ count (c ∷ s)
unfolding closes
closed_at_once c [] t h =
    let h' : closes (c ∷ opening ∷ t) ≡ true = rw (nil-append (opening ∷ t)) at h in
    absurd (ground (arith, h'))
closed_at_once c (d ∷ s) t h = omega (arith, length-cons c (d ∷ s), length-cons d s)

-- A run that is closed ends, with its closing braces, before an opening brace.
run-within :
    (s t : String)
    → closes (after_run (s <> (opening ∷ t))) ≡ true
    → count (run (s <> (opening ∷ t))) + 2 ≤ count s
unfolding run after_run
run-within [] t h = absurd (not_closed t (unfold is_brace in rw (nil-append (opening ∷ t)) at h))
run-within (c ∷ s) t h =
    let h' : closes (after_run (c ∷ (s <> (opening ∷ t)))) ≡ true =
      rw (cons-append c s (opening ∷ t)) at h in
    elim (Bool-cases (is_brace (code c))) [
      | inl e ↦ rw (cons-append c s (opening ∷ t), e) (closed_at_once c s t (rw e at h'))
      | inr e ↦
          rw (cons-append c s (opening ∷ t), e)
            (let within = run-within s t (rw e at h') in
              omega (arith, within, length-cons c s, length-cons c (run (s <> (opening ∷ t)))))
    ]

token-eq-some :
    (c d : Char) (s body : String)
    → token (c ∷ d ∷ s) ≡ some body
    → (run s ≡ body) × ((run s == "") ≡ false) × (closes (after_run s) ≡ true)
unfolding token
token-eq-some c d s body h = ground (arith, h)

-- A token that begins before two opening braces ends before them.
token-within :
    (c : Char) (s t body : String)
    → token (c ∷ (s <> (opening ∷ opening ∷ t))) ≡ some body
    → count body + 3 ≤ count s
unfolding run is_brace
token-within c [] t body h =
    let h' : token (c ∷ opening ∷ opening ∷ t) ≡ some body =
      rw (nil-append (opening ∷ opening ∷ t)) at h in
    cc (token-eq-some c opening (opening ∷ t) body h').1
token-within c (d ∷ s) t body h =
    let h' : token (c ∷ d ∷ (s <> (opening ∷ opening ∷ t))) ≡ some body =
      rw (cons-append d s (opening ∷ opening ∷ t)) at h in
    let (same, filled, closed) = token-eq-some c d (s <> (opening ∷ opening ∷ t)) body h' in
    let within : count (run (s <> (opening ∷ opening ∷ t))) + 2 ≤ count s =
      run-within s (opening ∷ t) closed in
    omega (arith, within, ap count same, length-cons d s)

result-ne-ok : (r : Rendered) (t : String) → r.missing ≢ List.[] → result r ≢ ok t
result-ne-ok r t h e = ground (arith, h, e)

module _ (values : Dict String) where
  replace_token-missing :
      (body : String) (r : Rendered)
      → r.missing ≢ List.[]
      → (replace_token values body r).missing ≢ List.[]
  unfolding replace_token
  replace_token-missing body r h e = ground (arith, h, e)

  emit-missing :
      (found : Option String) (c : Char) (r : Rendered)
      → r.missing ≢ List.[]
      → (emit values found c r).missing ≢ List.[]
  emit-missing none c r h = h
  emit-missing (some body) c r h = replace_token-missing body r h

  replace_all-suc :
      (n : ℕ) (c : Char) (s : String) → replace_all values (suc n) (c ∷ s) ≡ replace_all values n s
  unfolding replace_all
  replace_all-suc n c s = refl

  more-within :
      (c : Char) (s t : String) (found : Option String)
      → token (c ∷ (s <> (opening ∷ opening ∷ t))) ≡ found
      → more values found ≤ count s
  more-within c s t none h = omega arith
  more-within c s t (some body) h = token-within c s t body h

  module _ (body rest : String) (b : IsBody body)
      (absent : get (trim_space body) values ≡ none) where
    missing-braced : (replace_all values 0 (braced body rest)).missing ≢ List.[]
    missing-braced e = cc (
        sym (missing-replace_token values body (replace_all values 0 rest) absent)
        ∙ ap (λ r. r.missing) (sym (replace_all-braced values body rest b))
        ∙ e)

    -- A key without a value is missing at the end, whatever stands before its token.
    missing-ne-nil :
        (s : String) (n : ℕ)
        → n ≤ count s
        → (replace_all values n (s <> braced body rest)).missing ≢ List.[]
    missing-ne-nil [] zero h = rw (nil-append (braced body rest)) missing-braced
    missing-ne-nil [] (suc n) h = λ e. omega (arith, h)
    missing-ne-nil (c ∷ s) (suc n) h =
        rw (cons-append c s (braced body rest), replace_all-suc n c (s <> braced body rest))
          (missing-ne-nil s n (omega (arith, h, length-cons c s)))
    missing-ne-nil (c ∷ s) zero h =
        let found : Option String = token (c ∷ (s <> braced body rest)) in
        rw (cons-append c s (braced body rest), replace_all-cons values c (s <> braced body rest))
          (emit-missing found c _
            (missing-ne-nil s (more values found) (more-within c s _ found refl)))

  -- A token whose key has no value makes the rendering fail, whatever stands before and after it,
  -- braces and other tokens included.
  pub render_string_missing :
      (text body rest out : String)
      → IsBody body
      → get (trim_space body) values ≡ none
      → render_string (text <> "{{" <> body <> "}}" <> rest) values ≢ ok out
  unfolding render_string
  render_string_missing text body rest out b absent = rw (braced_lem body rest) (
      result-ne-ok (replace_all values 0 (text <> braced body rest)) out
        (missing-ne-nil body rest b absent text 0 (omega arith)))
