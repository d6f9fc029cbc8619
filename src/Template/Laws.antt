-- ===== src/Template/Laws.antt =====
-- What RenderString of internal/template/render.go does with text, tokens and unknown keys.
use Prim.Native.Nat.{◌+◌}
use Prim.Native.Char.{Char, code}
use Prim.Native.String.{String, [], ◌∷◌, ◌++◌ as ◌<>◌, count}
use mathlib.Core.List
use text.Mathlib.TextLemmas.{
  append-nil, length-append, length-cons, nil-append, cons-append, append_assoc,
}
use namespace_class.Base.{◌≡◌, refl, ◌≢◌, ◌∙◌, ap, ap₂, sym, none, some}
use namespace_class.Base.{arith, eq_iff}
use namespace_class.Base.Chars.{trim_space}
use namespace_class.Base.Chars.Laws.{Lacks}
use namespace_class.Base.Dict.{Dict, get}
use namespace_class.Errors.{ok, ◌>>=◌}
use namespace_class.Template.{
  Rendered, is_brace, run, after_run, closes, token, capture, replace_token, replace_all, emit,
  more, result, render_string,
}
use namespace_class.Template.Capture.{trim_space-capture}

-- What the pattern accepts between the braces.
pub record IsBody (s : String) : Type 0 where
  pub filled : s ≢ []
  pub no_open : Lacks b'{' s
  pub no_close : Lacks b'}' s

abbrev pub opening : Char
opening = "{"

abbrev pub closing : Char
closing = "}"

run-append : (s t : String) → Lacks b'{' s → Lacks b'}' s → run (s <> (closing ∷ t)) ≡ s
unfolding run is_brace
run-append [] t h k = rw nil-append
run-append (c ∷ s) t h k = rw (cons-append, run-append s t h.1 k.1) (ground arith)

after_run-append :
    (s t : String) → Lacks b'{' s → Lacks b'}' s → after_run (s <> (closing ∷ t)) ≡ closing ∷ t
unfolding after_run is_brace
after_run-append [] t h k = rw nil-append
after_run-append (c ∷ s) t h k = rw (cons-append, after_run-append s t h.1 k.1) (ground arith)

abbrev pub braced : String → String → String
braced body rest = opening ∷ opening ∷ (body <> (closing ∷ closing ∷ rest))

pub token-braced : (body rest : String) → IsBody body → token (braced body rest) ≡ some body
unfolding token closes
token-braced body rest b =
    rw (run-append body _ b.no_open b.no_close, after_run-append body _ b.no_open b.no_close)
      (ground (arith, eq_iff body ""))

token-eq-none : (c : Char) (s : String) → code c ≢ b'{' → token (c ∷ s) ≡ none
unfolding token
token-eq-none c [] h = refl
token-eq-none c (d ∷ s) h = ground arith

two_append : (c : Char) (s : String) → (c ∷ c ∷ []) <> s ≡ c ∷ c ∷ s
two_append c s =
    cons-append c (c ∷ []) s ∙ ap (λ t. c ∷ t) (cons-append c [] s ∙ ap (λ t. c ∷ t) (nil-append s))

-- A token after its first character.
abbrev tail_of_token : String → String
tail_of_token body = opening ∷ (body <> "}}")

count-tail_of_token : (body : String) → count body + 3 ≡ count (tail_of_token body)
count-tail_of_token body = rw (length-cons, length-append body "}}") (omega arith)

tail_of_token-append :
    (body rest : String)
    → opening ∷ (body <> (closing ∷ closing ∷ rest)) ≡ tail_of_token body <> rest
tail_of_token-append body rest =
    ap (λ t. opening ∷ (body <> t)) (sym (two_append closing rest))
    ∙ ap (λ t. opening ∷ t) (sym (append_assoc body "}}" rest))
    ∙ sym (cons-append opening (body <> "}}") rest)

-- Text in front of a result.
abbrev pub after_text : String → Rendered → Rendered
after_text s r = record { output = s <> r.output; missing = r.missing }

result-values :
    (text value out : String) (missing : List.List String)
    → result (record { output = text <> value <> out; missing = missing })
      ≡ (do tail ← result (record { output = out; missing = missing }); ok (text <> value <> tail))
result-values text value out List.[] = refl
result-values text value out (List.◌∷◌ k ks) = refl

-- The text form of a token in front of a rest, as the template has it.
pub braced_lem : (body rest : String) → "{{" <> body <> "}}" <> rest ≡ braced body rest
braced_lem body rest =
    two_append opening (body <> "}}" <> rest)
    ∙ ap (λ t. opening ∷ opening ∷ (body <> t)) (two_append closing rest)

module _ (values : Dict String) where
  pub replace_all-cons :
      (c : Char) (s : String)
      → replace_all values 0 (c ∷ s)
        ≡ emit values (token (c ∷ s)) c (replace_all values (more values (token (c ∷ s))) s)
  unfolding replace_all
  replace_all-cons c s = refl

  replace_all-skip : (s t : String) → replace_all values (count s) (s <> t) ≡ replace_all values 0 t
  unfolding replace_all
  replace_all-skip [] t = rw nil-append
  replace_all-skip (c ∷ s) t = rw (cons-append, length-cons) (replace_all-skip s t)

  replace_all-append :
      (s t : String)
      → Lacks b'{' s
      → replace_all values 0 (s <> t) ≡ after_text s (replace_all values 0 t)
  replace_all-append [] t h = rw (nil-append t, nil-append (replace_all values 0 t).output)
  replace_all-append (c ∷ s) t h =
      rw (cons-append, replace_all-cons, token-eq-none c (s <> t) h.0, replace_all-append s t h.1)
        (rw cons-append)

  skip_braced :
      (body rest : String)
      → replace_all values (count body + 3) (opening ∷ (body <> (closing ∷ closing ∷ rest)))
        ≡ replace_all values 0 rest
  skip_braced body rest =
      ap₂ (replace_all values) (count-tail_of_token body) (tail_of_token-append body rest)
      ∙ replace_all-skip (tail_of_token body) rest

  pub replace_all-braced :
      (body rest : String)
      → IsBody body
      → replace_all values 0 (braced body rest)
        ≡ replace_token values body (replace_all values 0 rest)
  replace_all-braced body rest b =
      rw (replace_all-cons, token-braced body rest b)
        (ap (replace_token values body) (skip_braced body rest))

  replace_token_value :
      (body value : String) (r : Rendered)
      → get (trim_space body) values ≡ some value
      → replace_token values body r ≡ record { output = value <> r.output; missing = r.missing }
  unfolding replace_token
  replace_token_value body value r found =
      let found' : get (trim_space (capture body)) values ≡ some value =
        rw (trim_space-capture body) found in
      ground arith

  pub missing-replace_token :
      (body : String) (r : Rendered)
      → get (trim_space body) values ≡ none
      → (replace_token values body r).missing ≡ List.◌∷◌ (trim_space body) r.missing
  unfolding replace_token
  missing-replace_token body r absent =
      let absent' : get (trim_space (capture body)) values ≡ none =
        rw (trim_space-capture body) absent in
      ground (arith, trim_space-capture body)

  replace_all-template :
      (text body rest : String)
      → Lacks b'{' text
      → IsBody body
      → replace_all values 0 (text <> "{{" <> body <> "}}" <> rest)
        ≡ after_text text (replace_token values body (replace_all values 0 rest))
  replace_all-template text body rest h b =
      rw (braced_lem body rest)
        (replace_all-append text _ h ∙ ap (after_text text) (replace_all-braced body rest b))

  -- A template that begins with text without an opening brace, then a token whose key has a value,
  -- is the text, the value, whatever it contains, and the rendering of what follows the token; the
  -- white space around the key does not matter, and an error in the rest is the error of the whole.
  pub render_string-append :
      (text body rest value : String)
      → Lacks b'{' text
      → IsBody body
      → get (trim_space body) values ≡ some value
      → render_string (text <> "{{" <> body <> "}}" <> rest) values
        ≡ (do tail ← render_string rest values; ok (text <> value <> tail))
  unfolding render_string
  render_string-append text body rest value h b found =
      ap result (replace_all-template text body rest h b)
      ∙ rw (replace_token_value body value _ found) (result-values text value _ _)

  -- A text without an opening brace is rendered as itself.
  pub render_string-Lacks : (text : String) → Lacks b'{' text → render_string text values ≡ ok text
  unfolding render_string
  render_string-Lacks text h = rw (← append-nil text) (ap result (replace_all-append text "" h))
