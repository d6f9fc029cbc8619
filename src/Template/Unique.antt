-- ===== src/Template/Unique.antt =====
-- The rendering of internal/template/render.go, from what a rendering is.
use Prim.Native.Nat.{◌+◌}
use Prim.Native.String.{String, ◌∷◌, ◌++◌ as ◌<>◌, count}
use mathlib.Core.List
use text.Mathlib.TextLemmas.{append_inj, length-append}
use namespace_class.Base.{◌≡◌, refl, sym, ◌∙◌, ap, arith, none, some, inl, inr}
use namespace_class.Base.Chars.{trim_space}
use namespace_class.Base.Dict.{Dict, get}
use namespace_class.Template.{
  Rendered, token, capture, replace_token, replace_all, result, render_string,
}
use namespace_class.Template.Laws.{IsBody, braced_lem, replace_all-cons, replace_all-braced}
use namespace_class.Template.Pattern.{token_pattern, match}
use namespace_class.Template.Equivalence.{token-match}
use namespace_class.Template.Rendering.{Rendering, finished, copied, replaced, kept}

match-Body :
    (s group rest : String)
    → match token_pattern s ≡ some (group, rest)
    → (body : String) × IsBody body × (s ≡ "{{" <> body <> "}}" <> rest) × (capture body ≡ group)
match-Body s group rest h = elim (token-match s) [
  | inl (no_token, no_match) ↦ cc (sym no_match ∙ h)
  | inr (body, rest', b, spelled, its_token, first, only) ↦
      let same : some (capture body, rest') ≡ some (group, rest) = sym first ∙ h in
      (body, b, spelled ∙ ap (λ t. "{{" <> body <> "}}" <> t) (cc same), cc same)
]

no_match-token : (s : String) → match token_pattern s ≡ none → token s ≡ none
no_match-token s h = elim (token-match s) [
  | inl (no_token, no_match) ↦ no_token
  | inr (body, rest, b, spelled, its_token, first, only) ↦ cc (sym first ∙ h)
]

count-braced :
    (body rest : String) → count ("{{" <> body <> "}}" <> rest) ≡ 4 + (count body + count rest)
count-braced body rest =
    rw
      (
        length-append "{{" (body <> "}}" <> rest),
        length-append body ("}}" <> rest),
        length-append "}}" rest,
      )
      (omega arith)

same_body :
    (body body' rest : String)
    → "{{" <> body <> "}}" <> rest ≡ "{{" <> body' <> "}}" <> rest
    → body ≡ body'
same_body body body' rest h =
    let long : count body ≡ count body' =
      omega (arith, ap count h, count-braced body rest, count-braced body' rest) in
    (append_inj (append_inj h refl).1 long).0

module _ (values : Dict String) where
  replace_all-token :
      (s body rest : String)
      → IsBody body
      → s ≡ "{{" <> body <> "}}" <> rest
      → replace_all values 0 s ≡ replace_token values body (replace_all values 0 rest)
  replace_all-token s body rest b spelled =
      ap (replace_all values 0) (spelled ∙ braced_lem body rest)
      ∙ replace_all-braced values body rest b

  replace_token_found :
      (body value : String) (r : Rendered)
      → get (trim_space (capture body)) values ≡ some value
      → replace_token values body r ≡ record { output = value <> r.output; missing = r.missing }
  unfolding replace_token
  replace_token_found body value r found = rw (found, replace_token) refl

  replace_token_absent :
      (body : String) (r : Rendered)
      → get (trim_space (capture body)) values ≡ none
      → replace_token values body r ≡ record {
        output = "{{" <> body <> "}}" <> r.output;
        missing = List.◌∷◌ (trim_space (capture body)) r.missing;
      }
  unfolding replace_token
  replace_token_absent body r absent = rw (absent, replace_token) refl

  Rendering-replace_all :
      {s : String} {r : Rendered} → Rendering values s r → replace_all values 0 s ≡ r
  Rendering-replace_all finished = unfold replace_all in refl
  Rendering-replace_all (copied {c} {s} no_match d) =
      replace_all-cons values c s
      ∙ rw (no_match-token (c ∷ s) no_match, Rendering-replace_all d) refl
  Rendering-replace_all {s} (replaced {value} {r} group rest m found d) =
      let (body, b, spelled, same) = match-Body s group rest m in
      replace_all-token s body rest b spelled
      ∙ ap (replace_token values body) (Rendering-replace_all d)
      ∙ replace_token_found body value r (rw same found)
  Rendering-replace_all {s} (kept {r} text group rest m spelled' absent d) =
      let (body, b, spelled, same) = match-Body s group rest m in
      replace_all-token s body rest b spelled
      ∙ ap (replace_token values body) (Rendering-replace_all d)
      ∙ replace_token_absent body r (rw same absent)
      ∙ rw (same, same_body body text rest (sym spelled ∙ spelled')) refl

  -- The result of any rendering of an input for these values, with tokens as a backtracking engine
  -- finds them from left to right, is what the program returns; so there is one such result.
  pub Rendering-render_string :
      {input : String} {r : Rendered}
      → Rendering values input r
      → render_string input values ≡ result r
  unfolding render_string
  Rendering-render_string d = ap result (Rendering-replace_all d)
