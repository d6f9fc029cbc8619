-- ===== src/Template/Pattern.antt =====
-- The pattern of internal/template/render.go, item by item, and the search that Go's regexp package
-- documents: of the matches, the one that a backtracking engine finds first.
use Prim.Native.Nat.{ℕ}
use Prim.Native.Char.{Char, code}
use Prim.Native.String.{String, [], ◌∷◌}
use mathlib.Core.List.{List}
use namespace_class.Base.{Bool, not, Option, none, some, nat_eq, if◌then◌else◌}
use namespace_class.Template.{is_blank, is_brace}

pub data Item : Type 0 where
  -- one character
  literal : ℕ → Item
  -- a class, `*`
  star : (ℕ → Bool) → Item
  -- the group: a class, `+?`
  group : (ℕ → Bool) → Item

-- What the group has taken, and what is left.
abbrev pub Found : Type 0
Found = Option (String × String)

abbrev pub or_else : Found → Found → Found
or_else none other = other
or_else (some found) other = some found

abbrev pub captured : Char → Found → Found
captured c none = none
captured c (some (g, rest)) = some (c ∷ g, rest)

-- One more is tried before none.
unfoldable pub match_star : (ℕ → Bool) → (String → Found) → String → Found
match_star class onward [] = onward []
match_star class onward (c ∷ s) =
    let more = match_star class onward s in
    if class (code c) then or_else more (onward (c ∷ s)) else onward (c ∷ s)

-- One is tried before one more.
unfoldable pub match_group : (ℕ → Bool) → (String → Found) → String → Found
match_group class onward [] = none
match_group class onward (c ∷ s) =
    let more = match_group class onward s in
    if class (code c) then captured c (or_else (onward s) more) else none

abbrev pub match_literal : ℕ → (String → Found) → String → Found
match_literal k onward [] = none
match_literal k onward (c ∷ s) = if nat_eq (code c) k then onward s else none

abbrev pub match : List Item → String → Found
match List.[] s = some ([], s)
match (List.◌∷◌ (literal k) items) s = match_literal k (match items) s
match (List.◌∷◌ (star class) items) s = match_star class (match items) s
match (List.◌∷◌ (group class) items) s = match_group class (match items) s

abbrev pub no_brace : ℕ → Bool
no_brace c = not (is_brace c)

abbrev pub token_pattern : List Item
token_pattern = List.◌∷◌ (literal b'{') (
    List.◌∷◌ (literal b'{') (
      List.◌∷◌ (star is_blank) (
        List.◌∷◌ (group no_brace)
          (List.◌∷◌ (star is_blank) (List.◌∷◌ (literal b'}') (List.◌∷◌ (literal b'}') List.[]))))))
