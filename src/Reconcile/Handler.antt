-- ===== src/Reconcile/Handler.antt =====
-- `Reconcile` of internal/controller/namespace_reconciler.go.
use namespace_class.Base.{
  String, ◌==◌, Bool, true, false, Option, none, some, [], ◌∷◌, if◌then◌else◌,
}
use namespace_class.Base.Int.{ℤ, not_positive}
use namespace_class.Errors.{ok, err, plain, wrap, is_not_found}
use namespace_class.Api.{Namespace, class_label_key}
use namespace_class.Policy.{Policy}
use namespace_class.Libraries.{Libraries}
use namespace_class.Resources.Objects.{value_in}
use namespace_class.Reconcile.Finalizer.{has_namespace_finalizer, remove_namespace_finalizer}
use namespace_class.Reconcile.Cleanup.{
  cleanup_binding_for_deleting_namespace, cleanup_binding_for_namespace,
}
use namespace_class.Reconcile.Binding.{reconcile_binding}
use namespace_class.Cluster.{get_namespace, Exec, call, bind, ◌>>=◌, ◌>>◌, pure, fail}

-- ctrl.Result: when to reconcile again, if that is asked for.
abbrev pub Requeue : Type 0
Requeue = Option ℤ

module _ (lib : Libraries) (policy : Policy) (reconcile_after : ℤ) where
  unfoldable pub periodic_requeue_result : Requeue
  periodic_requeue_result = if not_positive reconcile_after then none else some reconcile_after

  -- A namespace that is being deleted.
  unfoldable pub handle_deleting : Namespace → Exec Requeue
  unfolding bind
  handle_deleting namespace =
      if has_namespace_finalizer namespace
      then (do
        cleanup_binding_for_deleting_namespace lib namespace
        remove_namespace_finalizer namespace
        pure none)
      else pure none

  abbrev pub after_cleanup : Namespace → Bool → Exec Requeue
  after_cleanup namespace true = pure periodic_requeue_result
  after_cleanup namespace false = do remove_namespace_finalizer namespace; pure none

  -- A namespace without the class label.
  unfoldable pub handle_unlabelled : Namespace → Exec Requeue
  unfolding bind periodic_requeue_result
  handle_unlabelled namespace = do
    pending ← cleanup_binding_for_namespace lib namespace
    after_cleanup namespace pending

  unfoldable pub handle_labelled : Namespace → String → Exec Requeue
  unfolding bind periodic_requeue_result
  handle_labelled namespace class_name = do
    reconcile_binding lib policy namespace class_name
    pure periodic_requeue_result

  unfoldable pub handle_namespace : Namespace → Exec Requeue
  unfolding handle_deleting handle_unlabelled handle_labelled
  handle_namespace namespace =
      if namespace.deleting
      then handle_deleting namespace
      else if value_in class_label_key (some namespace.labels) == ""
      then handle_unlabelled namespace
      else handle_labelled namespace (value_in class_label_key (some namespace.labels))

  unfoldable pub reconcile : String → Exec Requeue
  unfolding handle_namespace
  reconcile name = call (get_namespace name) λ r. elim r [
    | ok namespace ↦ handle_namespace namespace
    | err e ↦ if is_not_found e then pure none else fail (wrap (plain "get namespace" ∷ []) e)
  ]
