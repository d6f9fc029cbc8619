-- ===== src/Reconcile/Cleanup.antt =====
-- `cleanupBindingForDeletingNamespace` and `cleanupBindingForNamespace` of
-- internal/controller/namespace_reconciler.go.
use namespace_class.Base.{Bool, true, false, [], ◌∷◌, if◌then◌else◌}
use namespace_class.Reason.{delete_failed}
use namespace_class.Errors.{Result, ok, err, Message, message, plain, wrap, is_not_found}
use namespace_class.Api.{Namespace, NamespaceClassBinding}
use namespace_class.Libraries.{Libraries}
use namespace_class.Inventory.{cluster_scoped_resource_refs}
use namespace_class.Resources.Stale.{delete_stale_managed_resources}
use namespace_class.Reconcile.Status.{update_binding_failure_status}
use namespace_class.Cluster.{get_binding, delete_binding, Exec, call, bind, ◌>>◌, pure, fail}

-- `if err := r.Delete(ctx, binding); err != nil && !apierrors.IsNotFound(err)`, and the value that
-- the caller returns after it.
unfoldable pub drop_binding : {A : Type 0} → NamespaceClassBinding → Message → Exec A → Exec A
drop_binding binding m rest =
    call (delete_binding binding)
      λ r. elim r [ ok _ ↦ rest | err e ↦ if is_not_found e then rest else fail (wrap m e) ]

module _ (lib : Libraries) (namespace : Namespace) where
  -- The outcome of the deletions for a namespace that is being deleted.
  unfoldable pub after_cluster_scoped : NamespaceClassBinding → Result (Unit {0}) → Exec (Unit {0})
  unfolding drop_binding bind update_binding_failure_status
  after_cluster_scoped binding (ok _) =
      drop_binding binding
        (plain "delete namespaceclassbinding after namespace deletion cleanup" ∷ []) (pure tt)
  after_cluster_scoped binding (err e) = do
    update_binding_failure_status lib binding namespace binding.status.observed_class_generation
        delete_failed (message e) binding.status.inventory
    fail e

  unfoldable pub cleanup_binding_for_deleting_namespace : Exec (Unit {0})
  unfolding after_cluster_scoped delete_stale_managed_resources bind
  cleanup_binding_for_deleting_namespace = call (get_binding namespace.name) λ r. elim r [
    | ok binding ↦
        bind
          (delete_stale_managed_resources lib namespace
            (cluster_scoped_resource_refs binding.status.inventory) [])
          (after_cluster_scoped binding)
    | err e ↦
        if is_not_found e
        then pure tt
        else fail (wrap (plain "get namespaceclassbinding for namespace deletion cleanup" ∷ []) e)
  ]

  -- The outcome of the deletions for a namespace without a class. `true` means that the cleanup has
  -- to be tried again.
  unfoldable pub after_inventory : NamespaceClassBinding → Result (Unit {0}) → Exec Bool
  unfolding drop_binding bind update_binding_failure_status
  after_inventory binding (ok _) =
      drop_binding binding (plain "delete namespaceclassbinding after cleanup" ∷ []) (pure false)
  after_inventory binding (err e) = do
    update_binding_failure_status lib binding namespace binding.status.observed_class_generation
        delete_failed (message e) binding.status.inventory
    pure true

  unfoldable pub cleanup_binding_for_namespace : Exec Bool
  unfolding after_inventory delete_stale_managed_resources bind
  cleanup_binding_for_namespace = call (get_binding namespace.name) λ r. elim r [
    | ok binding ↦
        bind (delete_stale_managed_resources lib namespace binding.status.inventory [])
          (after_inventory binding)
    | err e ↦
        if is_not_found e
        then pure false
        else fail (wrap (plain "get namespaceclassbinding for cleanup" ∷ []) e)
  ]
