-- ===== src/Template.antt =====
-- internal/template/render.go: tokens `{{ key }}` are replaced by values.
pub mod Capture
pub mod Laws
pub mod Pattern
pub mod Search
pub mod Inner
pub mod Equivalence
pub mod Rendering
pub mod Unique
pub mod Missing
use Prim.Native.Nat.{ℕ, zero, suc, ◌+◌}
use Prim.Native.Char.{Char, code}
use Prim.Native.String.{String, [], ◌∷◌, ◌++◌ as ◌<>◌, count}
use mathlib.Core.Bool.{Bool, true, false, ◌&&◌, ◌||◌, not}
use mathlib.Core.Option.{Option, none, some}
use mathlib.Core.List
use mathlib.Core.List.{List}
use text.Mathlib.Text.{◌==◌}
use namespace_class.Base.{nat_eq, if◌then◌else◌}
use namespace_class.Base.Chars.{trim_space, join}
use namespace_class.Base.Dict.{Dict, get}
use namespace_class.Errors.{Result, ok, err, errorf, plain}

-- The class `\s` of the pattern.
unfoldable pub is_blank : ℕ → Bool
is_blank c = nat_eq c 9 || nat_eq c 10 || nat_eq c 12 || nat_eq c 13 || nat_eq c 32

-- The characters that `[^{}]` leaves out.
unfoldable pub is_brace : ℕ → Bool
is_brace c = nat_eq c b'{' || nat_eq c b'}'

-- The longest beginning without a brace, and what follows it.
unfoldable pub run : String → String
run [] = []
run (c ∷ s) = let rest = run s in if is_brace (code c) then [] else c ∷ rest

unfoldable pub after_run : String → String
after_run [] = []
after_run (c ∷ s) = let rest = after_run s in if is_brace (code c) then c ∷ s else rest

unfoldable pub closes : String → Bool
closes (c ∷ d ∷ s) = nat_eq (code c) b'}' && nat_eq (code d) b'}'
closes _ = false

-- What stands between the braces of the match of `{{\s*([^{}]+?)\s*}}` that begins here. The
-- class has no braces, so the run up to the next brace must be what the pattern takes.
unfoldable pub token : String → Option String
unfolding run after_run closes is_brace
token (c ∷ d ∷ s) =
    if nat_eq (code c) b'{' && nat_eq (code d) b'{' && not (run s == "") && closes (after_run s)
    then some (run s)
    else none
token _ = none

-- `\s*` in front of the group takes all white space but leaves the group a character.
unfoldable pub skip_blank : String → String
skip_blank [] = []
skip_blank (c ∷ []) = c ∷ []
skip_blank (c ∷ d ∷ s) =
    let rest = skip_blank (d ∷ s) in if is_blank (code c) then rest else c ∷ d ∷ s

abbrev pub keep : Bool → Char → String → String
keep blank c [] = if blank then [] else c ∷ []
keep blank c (d ∷ s) = c ∷ d ∷ s

unfoldable pub drop_blank : String → String
drop_blank [] = []
drop_blank (c ∷ s) = keep (is_blank (code c)) c (drop_blank s)

-- The group is not greedy, and takes at least one character.
abbrev pub shortest : String → String
shortest [] = []
shortest (c ∷ s) = c ∷ drop_blank s

-- The text of the group, matches[1].
unfoldable pub capture : String → String
unfolding skip_blank drop_blank is_blank
capture body = shortest (skip_blank body)

-- A text with replacements, and the keys that had no value, as the callback collects them.
pub record Rendered : Type 0 where
  pub output : String
  pub missing : List String

module _ (values : Dict String) where
  -- The callback on a token with this body, in front of the rest of the result.
  unfoldable pub replace_token : String → Rendered → Rendered
  replace_token body rest = elim (get (trim_space (capture body)) values) [
    | none ↦ record {
      output = "{{" <> body <> "}}" <> rest.output;
      missing = List.◌∷◌ (trim_space (capture body)) rest.missing;
    }
    | some value ↦ record { output = value <> rest.output; missing = rest.missing }
  ]

  abbrev pub emit : Option String → Char → Rendered → Rendered
  emit none c rest = record { output = c ∷ rest.output; missing = rest.missing }
  emit (some body) c rest = replace_token body rest

  -- The characters of a token after its first.
  abbrev pub more : Option String → ℕ
  more none = 0
  more (some body) = count body + 3

  -- ReplaceAllStringFunc, from left to right. The number is that of the characters still to be
  -- passed over, since a token has taken them.
  unfoldable pub replace_all : ℕ → String → Rendered
  unfolding token replace_token
  replace_all n [] = record { output = []; missing = List.[] }
  replace_all (suc n) (c ∷ s) = replace_all n s
  replace_all zero (c ∷ s) = emit (token (c ∷ s)) c (replace_all (more (token (c ∷ s))) s)

abbrev pub result : Rendered → Result String
result r = elim r.missing [
  | List.[] ↦ ok r.output
  | List.◌∷◌ key keys ↦ err (
      errorf (
        List.◌∷◌ (plain "missing template values: ")
          (List.◌∷◌ (plain (join ", " (List.◌∷◌ key keys))) List.[])))
]

unfoldable pub render_string : String → Dict String → Result String
unfolding replace_all
render_string input values = result (replace_all values 0 input)
