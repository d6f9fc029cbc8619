-- ===== src/Contract/TakingAway.antt =====
-- The handler of internal/controller/namespace_reconciler.go for a namespace without a class.
use namespace_class.Base.{refl}
use namespace_class.Base.{
  ◌≡◌, sym, ◌∙◌, false≢true, ◌==◌, eq_iff, Bool, true, false, ◌⊎◌, inl, inr, some,
}
use namespace_class.Base.Int.{ℤ}
use namespace_class.Errors.{Result, ok, err}
use namespace_class.Api.{Namespace, class_label_key}
use namespace_class.Policy.{Policy}
use namespace_class.Libraries.{Libraries}
use namespace_class.Resources.Objects.{value_in}
use namespace_class.Reconcile.Finalizer.{has_namespace_finalizer, remove_namespace_finalizer}
use namespace_class.Reconcile.Cleanup.{
  cleanup_binding_for_deleting_namespace, cleanup_binding_for_namespace,
}
use namespace_class.Reconcile.Handler.{
  handle_deleting, after_cleanup, handle_unlabelled, handle_namespace,
}
use namespace_class.Cluster.{next}
use namespace_class.Cluster.Safety.{History}
use namespace_class.Contract.Requests.{Only-bind, Only-if}
use namespace_class.Contract.Requests.Bindings.{remove_finalizer-Only}
use namespace_class.Contract.Quiet.{
  AddsNothing, Quiet, cleanup_deleting-Quiet, cleanup_namespace-Quiet,
}

module _ (lib : Libraries) (policy : Policy) (reconcile_after : ℤ) (namespace : Namespace) where
  after_cleanup-Quiet :
      (h : History) (r : Result Bool)
      → Quiet h (next (after_cleanup lib policy reconcile_after namespace) r)
  after_cleanup-Quiet h (ok true) = tt
  after_cleanup-Quiet h (ok false) =
      Only-bind AddsNothing h (remove_namespace_finalizer namespace) _
        (remove_finalizer-Only AddsNothing (λ _. refl) namespace h)
        (λ h'. elim [ ok done ↦ tt | err e ↦ tt ])
  after_cleanup-Quiet h (err e) = tt

  unlabelled-Quiet :
      (h : History) → Quiet h (handle_unlabelled lib policy reconcile_after namespace)
  unfolding handle_unlabelled
  unlabelled-Quiet h =
      Only-bind AddsNothing h (cleanup_binding_for_namespace lib namespace) _
        (cleanup_namespace-Quiet lib namespace h) after_cleanup-Quiet

  deleting-Quiet : (h : History) → Quiet h (handle_deleting lib policy reconcile_after namespace)
  unfolding handle_deleting
  deleting-Quiet h =
      Only-if AddsNothing h (has_namespace_finalizer namespace) _ _
        (λ _.
          Only-bind AddsNothing h (cleanup_binding_for_deleting_namespace lib namespace) _
            (cleanup_deleting-Quiet lib namespace h)
            λ h'. elim [
              | ok done ↦
                  Only-bind AddsNothing h' (remove_namespace_finalizer namespace) _
                    (remove_finalizer-Only AddsNothing (λ _. refl) namespace h')
                    (λ h''. elim [ ok finished ↦ tt | err e ↦ tt ])
              | err e ↦ tt
            ])
        (λ _. tt)

-- For a namespace that is being deleted or has no class label, or an empty one: the handler never
-- applies an object, and never creates or updates a binding (but for its status).
pub handle_namespace-Quiet :
    (lib : Libraries) (policy : Policy) (reconcile_after : ℤ) (namespace : Namespace) (h : History)
    → (namespace.deleting ≡ true) ⊎ (value_in class_label_key (some namespace.labels) ≡ "")
    → Quiet h (handle_namespace lib policy reconcile_after namespace)
unfolding handle_namespace
handle_namespace-Quiet lib policy reconcile_after namespace h (inl deleting) =
    Only-if AddsNothing h namespace.deleting (handle_deleting lib policy reconcile_after namespace)
      _ (λ _. deleting-Quiet lib policy reconcile_after namespace h)
      (λ living. absurd (false≢true (sym living ∙ deleting)))
handle_namespace-Quiet lib policy reconcile_after namespace h (inr unlabelled) =
    Only-if AddsNothing h namespace.deleting (handle_deleting lib policy reconcile_after namespace)
      _ (λ _. deleting-Quiet lib policy reconcile_after namespace h)
      (λ _.
        Only-if AddsNothing h (value_in class_label_key (some namespace.labels) == "")
          (handle_unlabelled lib policy reconcile_after namespace) _
          (λ _. unlabelled-Quiet lib policy reconcile_after namespace h)
          (λ labelled. absurd (false≢true (sym labelled ∙ (eq_iff _ _).1 unlabelled))))
