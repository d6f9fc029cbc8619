-- ===== src/Base/Order/Laws.antt =====
-- Laws of sorting.
use Prim.Native.Nat.{compare as compare_ℕ}
use Prim.Native.Char.{code}
use Prim.Native.String.{String, [], ◌∷◌, compare, then as and_then}
use Prim.Native.String.compare
use mathlib.Core.Path.{◌≡◌, refl, ap, ◌∙◌}
use mathlib.Core.Bool.{Bool, true, false, ◌||◌}
use mathlib.Core.Option.{some}
use mathlib.Core.List.{List, map}
use mathlib.Core.Logic.{inl, inr}
use native.Mathlib.Omega.{arith}
use text.Mathlib.Text.{is_lt, ◌==◌}
use text.Mathlib.TextEquality.{eq_iff}
use text.Mathlib.TextPositions.{compare_refl}
use namespace_class.Base.Tests.{if◌then◌else◌, Bool-cases}
use namespace_class.Base.Dict.{Dict, get, has, key_of}
use namespace_class.Base.Order.{insert_sorted, sort_by}

-- The first text stands before the second.
abbrev pub before : String → String → Bool
before s t = is_lt (compare s t)

compare-cons :
    (c d : _) (s t : String)
    → compare (c ∷ s) (d ∷ t) ≡ and_then (compare_ℕ (code c) (code d)) (compare s t)
compare-cons c d s t i = compare.cons-cons c d s t i

pub before_asymm : (s t : String) → before s t ≡ true → before t s ≡ false
before_asymm [] [] h = refl
before_asymm [] (d ∷ t) h = λ i. is_lt (compare.cons-nil d t i)
before_asymm (c ∷ s) [] h =
    let e : before (c ∷ s) [] ≡ false = λ i. is_lt (compare.cons-nil c s i) in cc (e, h)
before_asymm (c ∷ s) (d ∷ t) h =
    ground (arith, compare-cons c d s t, compare-cons d c t s, before_asymm s t)

module _ {ℓ} {A : Type ℓ} (key : A → String) where
  has-insert_sorted :
      (k : String) (a : A) (l : List A)
      → has k (map key (insert_sorted key a l)) ≡ (key a == k || has k (map key l))
  unfolding insert_sorted has
  has-insert_sorted k a List.[] = refl
  has-insert_sorted k a (List.◌∷◌ b l) = ground (arith, has-insert_sorted k a l)

  -- Sorting keeps the keys.
  pub has-sort_by : (k : String) (l : List A) → has k (map key (sort_by key l)) ≡ has k (map key l)
  unfolding sort_by has
  has-sort_by k List.[] = refl
  has-sort_by k (List.◌∷◌ a l) =
      has-insert_sorted k a (sort_by key l) ∙ ap (λ b. key a == k || b) (has-sort_by k l)

  -- No key stands before the one in front of it.
  abbrev pub IsSorted : List A → Type 0
  IsSorted List.[] = Unit
  IsSorted (List.◌∷◌ a List.[]) = Unit
  IsSorted (List.◌∷◌ a (List.◌∷◌ b l)) = (before (key b) (key a) ≡ false) × IsSorted (List.◌∷◌ b l)

  IsSorted-tail : (a : A) (l : List A) → IsSorted (List.◌∷◌ a l) → IsSorted l
  IsSorted-tail a List.[] s = tt
  IsSorted-tail a (List.◌∷◌ b l) s = s.1

  insert_sorted-IsSorted_after :
      (a b : A) (l : List A)
      → before (key b) (key a) ≡ true
      → IsSorted (List.◌∷◌ b l)
      → IsSorted (insert_sorted key a l)
      → IsSorted (List.◌∷◌ b (insert_sorted key a l))
  unfolding insert_sorted
  insert_sorted-IsSorted_after a b List.[] h s k = (before_asymm (key b) (key a) h, tt)
  insert_sorted-IsSorted_after a b (List.◌∷◌ c l) h s k =
      elim (Bool-cases (before (key c) (key a))) [
        | inl e ↦ rw e (s.0, let k' : _ = k in rw e at k')
        | inr e ↦ rw e (before_asymm (key b) (key a) h, let k' : _ = k in rw e at k')
      ]

  insert_sorted-IsSorted : (a : A) (l : List A) → IsSorted l → IsSorted (insert_sorted key a l)
  unfolding insert_sorted
  insert_sorted-IsSorted a List.[] s = tt
  insert_sorted-IsSorted a (List.◌∷◌ b l) s = elim (Bool-cases (before (key b) (key a))) [
    | inl e ↦
        rw e (
          insert_sorted-IsSorted_after a b l e s (insert_sorted-IsSorted a l (IsSorted-tail b l s)))
    | inr e ↦ rw e (e, s)
  ]

  pub sort_by-IsSorted : (l : List A) → IsSorted (sort_by key l)
  unfolding sort_by
  sort_by-IsSorted List.[] = tt
  sort_by-IsSorted (List.◌∷◌ a l) = insert_sorted-IsSorted a _ (sort_by-IsSorted l)

module _ {ℓ} {V : Type ℓ} where
  get-insert_sorted :
      (k : String) (p : String × V) (d : Dict V)
      → get k (insert_sorted key_of p d) ≡ (if p.0 == k then some p.1 else get k d)
  unfolding insert_sorted get
  get-insert_sorted k p List.[] = refl
  get-insert_sorted k p (List.◌∷◌ q d) =
      ground (arith, get-insert_sorted k p d, eq_iff p.0 k, eq_iff q.0 k, compare_refl k)

  -- Sorting the entries of a map by their keys keeps the map.
  pub get-sort_by : (k : String) (d : Dict V) → get k (sort_by key_of d) ≡ get k d
  unfolding sort_by get
  get-sort_by k List.[] = refl
  get-sort_by k (List.◌∷◌ p d) =
      get-insert_sorted k p (sort_by key_of d)
      ∙ ap (λ o. if p.0 == k then some p.1 else o) (get-sort_by k d)
