-- ===== src/Contract/Record.antt =====
-- The contract for `updateBindingFailureStatus` of
-- internal/controller/namespace_reconciler.go.
use namespace_class.Base.{
  ℕ, String, ◌≡◌, refl, ◌∙◌, ◌⊎◌, inl, true, false≢true, eq_refl, List, [], ◌∷◌, arith,
}
use namespace_class.Base.Dict.{has}
use namespace_class.Base.Lists.{All, All-map}
use namespace_class.Reason.{Reason}
use namespace_class.Errors.{ok, err, Message}
use namespace_class.Api.{Namespace, NamespaceClassBinding, ResourceRef}
use namespace_class.Policy.{Policy}
use namespace_class.Libraries.{Libraries}
use namespace_class.Inventory.{resource_ref_key, merge_resource_refs}
use namespace_class.Inventory.Merge.{keys, has-merge_resource_refs}
use namespace_class.Reconcile.Status.{update_binding_failure_status, failure, with_status}
use namespace_class.Cluster.Safety.{History, Safe}
use namespace_class.Contract.{Shown, Gone, applied_refs, Duty}

pub self_listed : (l : List ResourceRef) → All (λ ref. has (resource_ref_key ref) (keys l) ≡ true) l
unfolding has
self_listed [] = tt
self_listed (ref ∷ l) =
    (rw (eq_refl (resource_ref_key ref)), All-map _ _ l (λ r listed. ground arith) (self_listed l))

module _ (lib : Libraries) (h : History) where
  -- Each reference of the old inventory is in the new one, or its object is gone.
  abbrev pub Keeps : List ResourceRef → List ResourceRef → Type 0
  Keeps old new = All (λ ref. (has (resource_ref_key ref) (keys new) ≡ true) ⊎ Gone lib ref h) old

  -- Each applied object is in the inventory.
  abbrev pub Covers : List ResourceRef → Type 0
  Covers inventory =
      (k : String) → has k (keys (applied_refs lib h)) ≡ true → has k (keys inventory) ≡ true

  pub Keeps-self : (l : List ResourceRef) → Keeps l l
  Keeps-self l = All-map _ _ l (λ ref listed. inl listed) (self_listed l)

  pub Keeps-merge : (l r : List ResourceRef) → Keeps l (merge_resource_refs l r)
  Keeps-merge l r =
      All-map _ _ l
        (λ ref listed. inl (has-merge_resource_refs (resource_ref_key ref) l r ∙ rw listed))
        (self_listed l)

  pub Covers-merge :
      (l r : List ResourceRef)
      → ((k : String) → has k (keys r) ≡ has k (keys (applied_refs lib h)))
      → Covers (merge_resource_refs l r)
  Covers-merge l r same k applied = has-merge_resource_refs k l r ∙ ground (arith, same k)

  pub Covers-clean : (l : List ResourceRef) → applied_refs lib h ≡ [] → Covers l
  unfolding has
  Covers-clean l clean k applied = absurd (false≢true (rw clean at applied))

  pub failure-Safe :
      (policy : Policy) (binding : NamespaceClassBinding) (namespace : Namespace) (generation : ℕ)
      (reason : Reason) (m : Message) (inventory : List ResourceRef)
      → Shown binding h
      → Keeps binding.status.inventory inventory
      → Covers inventory
      → Safe
          (Duty lib policy)
          (λ _ _. Unit {0})
          h
          (update_binding_failure_status lib binding namespace generation reason m inventory)
  unfolding update_binding_failure_status
  failure-Safe policy binding namespace generation reason m inventory shown kept covered = (
    record {
      base = binding;
      owner = namespace;
      class_generation = generation;
      inventory = inventory;
      condition = failure lib reason m;
      shown = shown;
      written = unfold with_status in refl;
      kept = kept;
      recorded = covered;
      exact = λ e. cc e;
    },
    elim [ ok done ↦ tt | err e ↦ tt ],
  )
