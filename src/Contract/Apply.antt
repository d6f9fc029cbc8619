-- ===== src/Contract/Apply.antt =====
-- The contract for `applyManagedResources` of
-- internal/controller/namespace_reconciler.go.
use mathlib.Core.List.{map-append}
use namespace_class.Base.{
  String, ◌≡◌, refl, ap, ap₂, ◌∙◌, ◌||◌, ◌==◌, Option, List, [], ◌∷◌, ◌++◌, arith,
}
use namespace_class.Base.Dict.{has, has-append}
use namespace_class.Base.Lists.{All, All-map}
use namespace_class.Base.Order.Laws.{has-sort_by}
use namespace_class.Errors.{Error, ok, err}
use namespace_class.Api.{Namespace, NamespaceClass, ResourceRef}
use namespace_class.Policy.{Policy}
use namespace_class.Libraries.{Libraries, IsLawful}
use namespace_class.Inventory.{resource_ref_key}
use namespace_class.Inventory.Merge.{keys}
use namespace_class.Resources.Prepare.{PreparedManagedResource}
use namespace_class.Resources.Apply.{apply_loop, apply_prepared, apply_managed_resources}
use namespace_class.Cluster.Safety.{History, Extends, here, later, Safe, Safe-bind}
use namespace_class.Contract.{Seen, Guarded, Resolved, applied_refs, Duty}
use namespace_class.Contract.Monotone.{
  Seen-Extends, Guarded-Extends, Resolved-Extends, Ready-Extends,
}
use namespace_class.Contract.Prepare.{Sure, Prepared, prepare_managed_resources-Safe}

module _ (lib : Libraries) where
  -- The references are those of the applied objects, up to order.
  abbrev pub Lists : List ResourceRef → History → Type 0
  Lists refs h = (k : String) → has k (keys refs) ≡ has k (keys (applied_refs lib h))

  -- What stands when objects may be applied.
  pub record Allowed (namespace : Namespace) (h : History) : Type 0 where
    pub seen : Seen namespace h
    pub guarded : Guarded h
    pub resolved : Resolved h

  pub Allowed-Extends :
      {namespace : Namespace} {g h : History}
      → Extends g h
      → Allowed namespace g
      → Allowed namespace h
  Allowed-Extends x a = record {
    seen = Seen-Extends x a.seen;
    guarded = Guarded-Extends x a.guarded;
    resolved = Resolved-Extends x a.resolved;
  }

  has-keys-append :
      (k : String) (refs : List ResourceRef) (ref : ResourceRef)
      → has k (keys (refs ++ ref ∷ [])) ≡ (resource_ref_key ref == k || has k (keys refs))
  unfolding has
  has-keys-append k refs ref =
      ap (has k) (map-append resource_ref_key refs (ref ∷ []))
      ∙ has-append k (keys refs) (keys (ref ∷ []))
      ∙ ground arith

  module _ (law : IsLawful lib) (policy : Policy) (namespace : Namespace) where
    abbrev Ends : History → List ResourceRef × Option Error → Type 0
    Ends h result = Lists result.0 h

    apply_loop-Safe :
        (resources : List PreparedManagedResource) (refs : List ResourceRef) (h : History)
        → Allowed namespace h
        → All (Sure lib law policy namespace h) resources
        → Lists refs h
        → Safe (Duty lib policy) Ends h (apply_loop lib resources refs)
    unfolding apply_loop applied_refs has
    apply_loop-Safe [] refs h allowed sure same = λ k. has-sort_by resource_ref_key k refs ∙ same k
    apply_loop-Safe (p ∷ resources) refs h allowed sure same = (
      (refl, (namespace, allowed.seen, sure.0.0), allowed.guarded, allowed.resolved),
      elim [
        | ok done ↦
            apply_loop-Safe resources (refs ++ p.ref ∷ []) _
              (Allowed-Extends (later _ _ here) allowed)
              (All-map _ _ resources (λ q s. (Ready-Extends lib policy (later _ _ here) s.0, s.1))
                sure.1)
              (λ k.
                has-keys-append k refs p.ref
                ∙ ap₂ (λ r b. resource_ref_key r == k || b) sure.0.1 (same k))
        | err e ↦ same
      ],
    )

    pub apply_managed_resources-Safe :
        (class : NamespaceClass) (h : History)
        → Allowed namespace h
        → applied_refs lib h ≡ []
        → Safe (Duty lib policy) Ends h (apply_managed_resources lib policy namespace class)
    unfolding apply_managed_resources
    apply_managed_resources-Safe class h allowed clean =
        Safe-bind (Duty lib policy) Ends
          (Prepared lib law policy namespace class.name (λ h. All (Sure lib law policy namespace h))
            h)
          h _ (apply_prepared lib)
          (prepare_managed_resources-Safe lib law policy namespace class.name class h refl)
          λ h'. elim [
            | ok resources ↦ λ post x.
                apply_loop-Safe resources [] h' (Allowed-Extends x allowed)
                  (post.sure resources refl) (λ k. rw (post.same ∙ clean))
            | err e ↦ λ post x k. rw (post.same ∙ clean)
          ]
