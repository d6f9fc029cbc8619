-- ===== src/Base/Dict.antt =====
-- Go's maps with string keys, as association lists, and its sets, `map[string]struct{}`, as lists.
use Prim.Native.String.{String}
use mathlib.Core.Path.{◌≡◌, refl}
use mathlib.Core.Bool.{Bool, false, ◌||◌}
use mathlib.Core.Option.{Option, none, some}
use mathlib.Core.List.{List, [], ◌∷◌, ◌++◌}
use native.Mathlib.Omega.{arith}
use text.Mathlib.Text.{◌==◌}
use text.Mathlib.TextEquality.{eq_iff}
use text.Mathlib.TextPositions.{eq_refl}
use namespace_class.Base.Tests.{if◌then◌else◌}

unfoldable pub has : String → List String → Bool
has k [] = false
has k (j ∷ l) = j == k || has k l

-- `set[k] = struct{}{}`
unfoldable pub add : String → List String → List String
add k l = if has k l then l else l ++ k ∷ []

pub has-append : (k : String) (l m : List String) → has k (l ++ m) ≡ (has k l || has k m)
unfolding has
has-append k [] m = refl
has-append k (j ∷ l) m = ground (arith, has-append k l m)

pub has-add : (k j : String) (l : List String) → has k (add j l) ≡ (j == k || has k l)
unfolding has add
has-add k j l = ground (arith, has-append k l (j ∷ []), eq_iff j k)

-- No string stands twice in the list.
abbrev pub AllDifferent : List String → Type 0
AllDifferent [] = Unit {0}
AllDifferent (x ∷ l) = (has x l ≡ false) × AllDifferent l

pub AllDifferent-append :
    (l : List String) (k : String) → AllDifferent l → has k l ≡ false → AllDifferent (l ++ k ∷ [])
unfolding has
AllDifferent-append [] k h new = (refl, tt)
AllDifferent-append (j ∷ l) k h new = (
  ground (arith, has-append j l (k ∷ []), h.0, new, eq_iff j k, eq_iff k j),
  AllDifferent-append l k h.1 (ground (arith, new)),
)

abbrev pub Dict {ℓ} : Type ℓ → Type ℓ
Dict V = List (String × V)

module _ {ℓ} {V : Type ℓ} where
  abbrev pub key_of : String × V → String
  key_of p = p.0

  abbrev pub value_of : String × V → V
  value_of p = p.1

  unfoldable pub get : String → Dict V → Option V
  get k [] = none
  get k ((j, v) ∷ d) = if j == k then some v else get k d

  -- `d[k] = v`
  unfoldable pub set : String → V → Dict V → Dict V
  set k v [] = (k, v) ∷ []
  set k v ((j, w) ∷ d) = if j == k then (k, v) ∷ d else (j, w) ∷ set k v d

  pub get-set :
      (k j : String) (v : V) (d : Dict V) → get j (set k v d) ≡ (if k == j then some v else get j d)
  unfolding get set
  get-set k j v [] = refl
  get-set k j v ((i, w) ∷ d) = ground (arith, eq_iff k j, eq_iff i k, eq_iff i j, get-set k j v d)

  pub get-set_self : (k : String) (v : V) (d : Dict V) → get k (set k v d) ≡ some v
  get-set_self k v d = ground (arith, get-set k k v d, eq_refl k)
