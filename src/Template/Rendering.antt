-- ===== src/Template/Rendering.antt =====
-- What internal/template/render.go makes of an input, in terms of the search for its pattern.
use Prim.Native.Nat.{ℕ, zero, suc, ◌+◌, ◌≤◌}
use Prim.Native.Char.{Char}
use Prim.Native.String.{String, [], ◌∷◌, ◌++◌ as ◌<>◌, count}
use mathlib.Core.List
use text.Mathlib.TextLemmas.{length-append, length-cons}
use namespace_class.Base.{◌≡◌, refl, ◌∙◌, ap, arith, Option, none, some, inl, inr}
use namespace_class.Base.Chars.{trim_space}
use namespace_class.Base.Dict.{Dict, get}
use namespace_class.Template.{Rendered, capture, replace_token, replace_all, result, render_string}
use namespace_class.Template.Laws.{braced_lem, replace_all-cons, replace_all-braced}
use namespace_class.Template.Pattern.{token_pattern, match}
use namespace_class.Template.Equivalence.{token-match}

-- A rendering: tokens from left to right, each the first match that begins after the one before.
pub data Rendering (values : Dict String) : String → Rendered → Type 0 where
  finished : Rendering values [] (record { output = []; missing = List.[] })
  copied :
      {c : Char} {s : String} {r : Rendered}
      → match token_pattern (c ∷ s) ≡ none
      → Rendering values s r
      → Rendering values (c ∷ s) (record { output = c ∷ r.output; missing = r.missing })
  replaced :
      {s value : String} {r : Rendered} (group rest : String)
      → match token_pattern s ≡ some (group, rest)
      → get (trim_space group) values ≡ some value
      → Rendering values rest r
      → Rendering values s (record { output = value <> r.output; missing = r.missing })
  kept :
      {s : String} {r : Rendered} (body group rest : String)
      → match token_pattern s ≡ some (group, rest)
      → s ≡ "{{" <> body <> "}}" <> rest
      → get (trim_space group) values ≡ none
      → Rendering values rest r
      → Rendering values s (record {
        output = "{{" <> body <> "}}" <> r.output;
        missing = List.◌∷◌ (trim_space group) r.missing;
      })

module _ (values : Dict String) where
  replace_token-Rendering :
      (s body rest : String) (r : Rendered) (found : Option String)
      → get (trim_space (capture body)) values ≡ found
      → match token_pattern s ≡ some (capture body, rest)
      → s ≡ "{{" <> body <> "}}" <> rest
      → Rendering values rest r
      → Rendering values s (replace_token values body r)
  unfolding replace_token
  replace_token-Rendering s body rest r none e m spelled known =
      rw (e, replace_token) (Rendering.kept body (capture body) rest m spelled e known)
  replace_token-Rendering s body rest r (some value) e m spelled known =
      rw (e, replace_token) (Rendering.replaced (capture body) rest m e known)

  count-rest :
      (n : ℕ) (c : Char) (s body rest : String)
      → c ∷ s ≡ "{{" <> body <> "}}" <> rest
      → count (c ∷ s) ≤ suc n
      → count rest ≤ n
  count-rest n c s body rest e h =
      let longer : count ("{{" <> body <> "}}" <> rest) ≤ suc n = rw e at h in
      let parts : count ("{{" <> body <> "}}" <> rest) ≡ 2 + (count body + (2 + count rest)) =
        rw
          (
            length-append "{{" (body <> "}}" <> rest),
            length-append body ("}}" <> rest),
            length-append "}}" rest,
          )
          refl in
      omega arith

  replace_all-Rendering :
      (n : ℕ) (s : String) → count s ≤ n → Rendering values s (replace_all values 0 s)
  replace_all-Rendering n [] h = unfold replace_all in Rendering.finished
  replace_all-Rendering zero (c ∷ s) h = absurd (omega (arith, length-cons c s))
  replace_all-Rendering (suc n) (c ∷ s) h = elim (token-match (c ∷ s)) [
    | inl (no_token, no_match) ↦
        rw (replace_all-cons values c s, no_token)
          (Rendering.copied no_match (replace_all-Rendering n s (omega (arith, length-cons c s))))
    | inr (body, rest, b, spelled, its_token, first, only) ↦
        let braces : replace_all values 0 (c ∷ s)
            ≡ replace_token values body (replace_all values 0 rest) =
          ap (replace_all values 0) (spelled ∙ braced_lem body rest)
          ∙ replace_all-braced values body rest b in
        rw braces (
          replace_token-Rendering (c ∷ s) body rest (replace_all values 0 rest)
            (get (trim_space (capture body)) values) refl first spelled
            (replace_all-Rendering n rest (count-rest n c s body rest spelled h)))
  ]

  -- The result of a rendering for these values, which exists for every input: from left to right, at
  -- the first place where a backtracking engine finds a match of `{{\s*([^{}]+?)\s*}}`, the value of
  -- its group without outer white space, or where there is no value the token itself, with the key
  -- among the missing ones; then likewise what follows the match. All else is copied. The result is
  -- the text where no key is missing, and otherwise an error that lists the missing keys in order.
  pub render_string-Rendering :
      (input : String)
      → (r : Rendered) × Rendering values input r × (render_string input values ≡ result r)
  unfolding render_string
  render_string-Rendering input =
      (replace_all values 0 input, replace_all-Rendering (count input) input (omega arith), refl)
