-- ===== src/Contract/Quiet.antt =====
-- The requests of the two cleanups of internal/controller/namespace_reconciler.go.
use namespace_class.Base.{◌≡◌, refl, Bool, true, false, List, []}
use namespace_class.Errors.{Result, ok, err, Message, is_not_found}
use namespace_class.Api.{Namespace, NamespaceClassBinding, ResourceRef}
use namespace_class.Libraries.{Libraries}
use namespace_class.Inventory.{cluster_scoped_resource_refs}
use namespace_class.Resources.Stale.{delete_stale_managed_resources}
use namespace_class.Reconcile.Status.{update_binding_failure_status}
use namespace_class.Reconcile.Cleanup.{
  drop_binding, after_cluster_scoped, cleanup_binding_for_deleting_namespace, after_inventory,
  cleanup_binding_for_namespace,
}
use namespace_class.Cluster.{Request, Program, ret, bind, apply, create_binding, update_binding}
use namespace_class.Cluster.Safety.{History}
use namespace_class.Contract.Requests.{Only, Only-bind, Only-if}
use namespace_class.Contract.Requests.Objects.{delete_stale-Only}

-- The requests that add something for a class.
abbrev pub adds : Request → Bool
adds (apply _ _) = true
adds (create_binding _) = true
adds (update_binding _) = true
adds _ = false

abbrev pub AddsNothing : Request → Type 0
AddsNothing q = adds q ≡ false

-- No request of the program adds anything.
abbrev pub Quiet : {A : Type 0} → History → Program A → Type 0
Quiet h m = Only AddsNothing h m

drop_binding-Quiet :
    {A : Type 0} (binding : NamespaceClassBinding) (m : Message) (a : Result A) (h : History)
    → Quiet h (drop_binding binding m (ret a))
unfolding drop_binding
drop_binding-Quiet binding m a h = (
  refl,
  elim [
    | ok done ↦ tt
    | err e ↦ Only-if AddsNothing _ (is_not_found e) (ret a) _ (λ _. tt) (λ _. tt)
  ],
)

module _ (lib : Libraries) (namespace : Namespace) where
  stale-Quiet :
      (previous desired : List ResourceRef) (h : History)
      → Quiet h (delete_stale_managed_resources lib namespace previous desired)
  stale-Quiet previous desired h =
      delete_stale-Only AddsNothing lib namespace (λ _ _ _. refl) (λ _. refl) previous desired h

  after_cluster_scoped-Quiet :
      (binding : NamespaceClassBinding) (h : History) (r : Result (Unit {0}))
      → Quiet h (after_cluster_scoped lib namespace binding r)
  unfolding after_cluster_scoped update_binding_failure_status bind
  after_cluster_scoped-Quiet binding h (ok done) = drop_binding-Quiet binding _ _ h
  after_cluster_scoped-Quiet binding h (err e) = (refl, elim [ ok done ↦ tt | err other ↦ tt ])

  after_inventory-Quiet :
      (binding : NamespaceClassBinding) (h : History) (r : Result (Unit {0}))
      → Quiet h (after_inventory lib namespace binding r)
  unfolding after_inventory update_binding_failure_status bind
  after_inventory-Quiet binding h (ok done) = drop_binding-Quiet binding _ _ h
  after_inventory-Quiet binding h (err e) = (refl, elim [ ok done ↦ tt | err other ↦ tt ])

  pub cleanup_deleting-Quiet :
      (h : History) → Quiet h (cleanup_binding_for_deleting_namespace lib namespace)
  unfolding cleanup_binding_for_deleting_namespace
  cleanup_deleting-Quiet h = (
    refl,
    elim [
      | ok binding ↦
          Only-bind AddsNothing _
            (delete_stale_managed_resources lib namespace
              (cluster_scoped_resource_refs binding.status.inventory) [])
            (after_cluster_scoped lib namespace binding) (stale-Quiet _ [] _)
            (λ h' r. after_cluster_scoped-Quiet binding h' r)
      | err e ↦ Only-if AddsNothing _ (is_not_found e) _ _ (λ _. tt) (λ _. tt)
    ],
  )

  pub cleanup_namespace-Quiet :
      (h : History) → Quiet h (cleanup_binding_for_namespace lib namespace)
  unfolding cleanup_binding_for_namespace
  cleanup_namespace-Quiet h = (
    refl,
    elim [
      | ok binding ↦
          Only-bind AddsNothing _
            (delete_stale_managed_resources lib namespace binding.status.inventory [])
            (after_inventory lib namespace binding) (stale-Quiet _ [] _)
            (λ h' r. after_inventory-Quiet binding h' r)
      | err e ↦ Only-if AddsNothing _ (is_not_found e) _ _ (λ _. tt) (λ _. tt)
    ],
  )
