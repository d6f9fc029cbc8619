-- ===== src/Inventory/Merge.antt =====
-- What mergeResourceRefs of internal/controller/namespace_reconciler.go returns.
use namespace_class.Base.{
  String, ◌≡◌, refl, sym, ap, ap₂, ◌∙◌, ◌||◌, Option, none, some, List, [], ◌∷◌, map, ◌==◌, eq_iff,
  arith, if◌then◌else◌,
}
use namespace_class.Base.Dict.{Dict, get, set, get-set, has, key_of, value_of}
use namespace_class.Base.Order.{sort_by, insert_sorted}
use namespace_class.Base.Order.Laws.{IsSorted, get-sort_by, has-sort_by, sort_by-IsSorted}
use namespace_class.Errors.{or_else}
use namespace_class.Api.{ResourceRef}
use namespace_class.Inventory.{resource_ref_key, put_refs, merge_resource_refs}

-- The keys of an inventory.
abbrev pub keys : List ResourceRef → List String
keys refs = map resource_ref_key refs

-- The last reference with a key.
unfoldable pub last_ref : String → List ResourceRef → Option ResourceRef
last_ref k [] = none
last_ref k (ref ∷ refs) =
    or_else (last_ref k refs) (if resource_ref_key ref == k then some ref else none)

get-put_refs :
    (k : String) (refs : List ResourceRef) (d : Dict ResourceRef)
    → get k (put_refs refs d) ≡ or_else (last_ref k refs) (get k d)
unfolding put_refs last_ref
get-put_refs k [] d = refl
get-put_refs k (ref ∷ refs) d =
    get-put_refs k refs (set (resource_ref_key ref) ref d)
    ∙ ground (arith, get-set (resource_ref_key ref) k ref d)

-- Each entry stands under the key of its reference.
abbrev IsKeyed : Dict ResourceRef → Type 0
IsKeyed [] = Unit
IsKeyed ((k, ref) ∷ d) = (k ≡ resource_ref_key ref) × IsKeyed d

set-IsKeyed :
    (ref : ResourceRef) (d : Dict ResourceRef)
    → IsKeyed d
    → IsKeyed (set (resource_ref_key ref) ref d)
unfolding set
set-IsKeyed ref [] h = (refl, tt)
set-IsKeyed ref ((k, r) ∷ d) h = ground (arith, set-IsKeyed ref d h.1)

put_refs-IsKeyed :
    (refs : List ResourceRef) (d : Dict ResourceRef) → IsKeyed d → IsKeyed (put_refs refs d)
unfolding put_refs
put_refs-IsKeyed [] d h = h
put_refs-IsKeyed (ref ∷ refs) d h = put_refs-IsKeyed refs _ (set-IsKeyed ref d h)

insert_sorted-IsKeyed :
    (k : String) (ref : ResourceRef) (d : Dict ResourceRef)
    → k ≡ resource_ref_key ref
    → IsKeyed d
    → IsKeyed (insert_sorted key_of (k, ref) d)
unfolding insert_sorted
insert_sorted-IsKeyed k ref [] e h = (e, tt)
insert_sorted-IsKeyed k ref ((j, r) ∷ d) e h = ground (arith, insert_sorted-IsKeyed k ref d e h.1)

sort_by-IsKeyed : (d : Dict ResourceRef) → IsKeyed d → IsKeyed (sort_by key_of d)
unfolding sort_by
sort_by-IsKeyed [] h = tt
sort_by-IsKeyed ((k, ref) ∷ d) h = insert_sorted-IsKeyed k ref _ h.0 (sort_by-IsKeyed d h.1)

keys-value_of : (d : Dict ResourceRef) → IsKeyed d → keys (map value_of d) ≡ map key_of d
keys-value_of [] h = refl
keys-value_of ((k, ref) ∷ d) h = ap₂ (λ j l. j ∷ l) (sym h.0) (keys-value_of d h.1)

has-set :
    (k j : String) (v : ResourceRef) (d : Dict ResourceRef)
    → has k (map key_of (set j v d)) ≡ (j == k || has k (map key_of d))
unfolding has set
has-set k j v [] = refl
has-set k j v ((i, w) ∷ d) = ground (arith, has-set k j v d, eq_iff i j, eq_iff i k, eq_iff j k)

has-put_refs :
    (k : String) (refs : List ResourceRef) (d : Dict ResourceRef)
    → has k (map key_of (put_refs refs d)) ≡ (has k (keys refs) || has k (map key_of d))
unfolding has put_refs
has-put_refs k [] d = refl
has-put_refs k (ref ∷ refs) d =
    has-put_refs k refs _ ∙ ground (arith, has-set k (resource_ref_key ref) ref d)

or_else-none {ℓ} : {A : Type ℓ} (o : Option A) → or_else o none ≡ o
or_else-none none = refl
or_else-none (some a) = refl

value_of-IsSorted :
    (d : Dict ResourceRef)
    → IsKeyed d
    → IsSorted key_of d
    → IsSorted resource_ref_key (map value_of d)
value_of-IsSorted [] h s = tt
value_of-IsSorted (p ∷ []) h s = tt
value_of-IsSorted ((j, r) ∷ (k, t) ∷ d) h s =
    (rw (← h.0, ← h.1.0) s.0, value_of-IsSorted ((k, t) ∷ d) h.1 s.1)

merged : List ResourceRef → List ResourceRef → Dict ResourceRef
merged left right = put_refs right (put_refs left [])

merged-IsKeyed : (left right : List ResourceRef) → IsKeyed (merged left right)
unfolding merged
merged-IsKeyed left right = put_refs-IsKeyed right _ (put_refs-IsKeyed left [] tt)

-- The reference that an inventory has for a key.
unfoldable pub find_ref : String → List ResourceRef → Option ResourceRef
find_ref k [] = none
find_ref k (ref ∷ refs) = if resource_ref_key ref == k then some ref else find_ref k refs

find_ref-value_of :
    (k : String) (d : Dict ResourceRef) → IsKeyed d → find_ref k (map value_of d) ≡ get k d
unfolding find_ref get
find_ref-value_of k [] h = refl
find_ref-value_of k ((j, ref) ∷ d) h = ground (arith, find_ref-value_of k d h.1)

-- The merged inventory has, for each key, the last reference of the right inventory with this key,
-- or else the last of the left one, or else none.
pub find_ref-merge_resource_refs :
    (k : String) (left right : List ResourceRef)
    → find_ref k (merge_resource_refs left right) ≡ or_else (last_ref k right) (last_ref k left)
unfolding merge_resource_refs merged get
find_ref-merge_resource_refs k left right =
    find_ref-value_of k _ (sort_by-IsKeyed _ (merged-IsKeyed left right))
    ∙ get-sort_by k (merged left right)
    ∙ get-put_refs k right _
    ∙ ap (or_else (last_ref k right)) (get-put_refs k left [] ∙ or_else-none _)

-- The merged inventory has the keys of both.
pub has-merge_resource_refs :
    (k : String) (left right : List ResourceRef)
    → has k (keys (merge_resource_refs left right)) ≡ (has k (keys left) || has k (keys right))
unfolding merge_resource_refs merged has
has-merge_resource_refs k left right =
    ap (has k) (keys-value_of _ (sort_by-IsKeyed _ (merged-IsKeyed left right)))
    ∙ has-sort_by key_of k (merged left right)
    ∙ has-put_refs k right _
    ∙ ap (λ b. has k (keys right) || b) (has-put_refs k left [])
    ∙ ground arith

-- The merged inventory is in the order of its keys.
pub merge_resource_refs-IsSorted :
    (left right : List ResourceRef) → IsSorted resource_ref_key (merge_resource_refs left right)
unfolding merge_resource_refs merged
merge_resource_refs-IsSorted left right =
    value_of-IsSorted _ (sort_by-IsKeyed _ (merged-IsKeyed left right))
      (sort_by-IsSorted key_of (merged left right))
