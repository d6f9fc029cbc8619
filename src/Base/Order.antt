-- ===== src/Base/Order.antt =====
-- sort.Strings and sort.Slice by a key: lists in the order of their keys, which is that of the
-- keys' bytes. The order of equal keys is that of the input here; Go leaves it open.
pub mod Laws
use Prim.Native.Nat.{Ordering}
use Prim.Native.String.{String, compare}
use mathlib.Core.Bool.{Bool}
use mathlib.Core.List.{List, [], ◌∷◌}
use text.Mathlib.Text.{is_lt}
use namespace_class.Base.Tests.{if◌then◌else◌}

module _ {ℓ} {A : Type ℓ} (key : A → String) where
  unfoldable pub insert_sorted : A → List A → List A
  insert_sorted a [] = a ∷ []
  insert_sorted a (b ∷ l) =
      if is_lt (compare (key b) (key a)) then b ∷ insert_sorted a l else a ∷ b ∷ l

  unfoldable pub sort_by : List A → List A
  sort_by [] = []
  sort_by (a ∷ l) = insert_sorted a (sort_by l)
