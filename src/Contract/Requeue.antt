-- ===== src/Contract/Requeue.antt =====
-- When `Reconcile` of internal/controller/namespace_reconciler.go asks for another pass.
use namespace_class.Base.{
  ◌≡◌, refl, ℕ, zero, suc, String, ◌==◌, Bool, true, false, none, some, if◌then◌else◌,
}
use namespace_class.Base.Int.{ℤ, pos, negsuc, not_positive}
use namespace_class.Errors.{ok, err, is_not_found}
use namespace_class.Api.{Namespace, class_label_key}
use namespace_class.Policy.{Policy}
use namespace_class.Libraries.{Libraries}
use namespace_class.Resources.Objects.{value_in}
use namespace_class.Reconcile.Finalizer.{has_namespace_finalizer, remove_namespace_finalizer}
use namespace_class.Reconcile.Cleanup.{
  cleanup_binding_for_deleting_namespace, cleanup_binding_for_namespace,
}
use namespace_class.Reconcile.Binding.{reconcile_binding}
use namespace_class.Reconcile.Handler.{
  Requeue, periodic_requeue_result, handle_deleting, handle_unlabelled, handle_labelled,
  handle_namespace, reconcile,
}
use namespace_class.Cluster.{Exec, pure}
use namespace_class.Cluster.Safety.{History, start}
use namespace_class.Contract.Outcomes.{Ensures, Ensures-bind, Ensures-next}

-- No other pass is asked for, or one after the interval, which is positive.
pub data Timely (reconcile_after : ℤ) : History → Requeue → Type 0 where
  never : {h : History} → Timely reconcile_after h none
  after :
      {h : History} (n : ℕ)
      → reconcile_after ≡ pos (suc n)
      → Timely reconcile_after h (some reconcile_after)

pub Ensures-if :
    {A : Type 0} (Q : History → A → Type 0) (h : History) (b : Bool) (m n : Exec A)
    → (b ≡ true → Ensures Q h m)
    → (b ≡ false → Ensures Q h n)
    → Ensures Q h (if b then m else n)
Ensures-if Q h true m n s t = s refl
Ensures-if Q h false m n s t = t refl

periodic-Timely :
    (lib : Libraries) (policy : Policy) (reconcile_after : ℤ) (h : History)
    → Timely reconcile_after h (periodic_requeue_result lib policy reconcile_after)
unfolding periodic_requeue_result not_positive
periodic-Timely lib policy (pos zero) h = Timely.never
periodic-Timely lib policy (pos (suc n)) h = Timely.after n refl
periodic-Timely lib policy (negsuc n) h = Timely.never

module _ (lib : Libraries) (policy : Policy) (reconcile_after : ℤ) where
  module _ (namespace : Namespace) where
    unlabelled-Timely :
        (h : History)
        → Ensures
            (Timely reconcile_after)
            h
            (handle_unlabelled lib policy reconcile_after namespace)
    unfolding handle_unlabelled
    unlabelled-Timely h =
        Ensures-bind (Timely reconcile_after) h (cleanup_binding_for_namespace lib namespace) _ (
          Ensures-next (Timely reconcile_after) _ λ h'. elim [
            | true ↦ periodic-Timely lib policy reconcile_after h'
            | false ↦
                Ensures-bind (Timely reconcile_after) h' (remove_namespace_finalizer namespace) _
                  (Ensures-next (Timely reconcile_after) _ λ h'' _. Timely.never)
          ])

    deleting-Timely :
        (h : History)
        → Ensures (Timely reconcile_after) h (handle_deleting lib policy reconcile_after namespace)
    unfolding handle_deleting
    deleting-Timely h =
        Ensures-if (Timely reconcile_after) h (has_namespace_finalizer namespace) _ _
          (λ _.
            Ensures-bind (Timely reconcile_after) h
              (cleanup_binding_for_deleting_namespace lib namespace) _
              (Ensures-next (Timely reconcile_after) _ λ h' _.
                Ensures-bind (Timely reconcile_after) h' (remove_namespace_finalizer namespace) _
                  (Ensures-next (Timely reconcile_after) _ λ h'' _. Timely.never)))
          (λ _. Timely.never)

    labelled-Timely :
        (class_name : String) (h : History)
        → Ensures
            (Timely reconcile_after)
            h
            (handle_labelled lib policy reconcile_after namespace class_name)
    unfolding handle_labelled
    labelled-Timely class_name h =
        Ensures-bind (Timely reconcile_after) h (reconcile_binding lib policy namespace class_name)
          _
          (Ensures-next (Timely reconcile_after) _
            λ h' _. periodic-Timely lib policy reconcile_after h')

    namespace-Timely :
        (h : History)
        → Ensures (Timely reconcile_after) h (handle_namespace lib policy reconcile_after namespace)
    unfolding handle_namespace
    namespace-Timely h =
        Ensures-if (Timely reconcile_after) h namespace.deleting
          (handle_deleting lib policy reconcile_after namespace) _ (λ _. deleting-Timely h)
          (λ _.
            Ensures-if (Timely reconcile_after) h
              (value_in class_label_key (some namespace.labels) == "")
              (handle_unlabelled lib policy reconcile_after namespace)
              (handle_labelled lib policy reconcile_after namespace
                (value_in class_label_key (some namespace.labels)))
              (λ _. unlabelled-Timely h) (λ _. labelled-Timely _ h))

-- Where the handler succeeds it asks for no other pass, or for one after the configured interval,
-- and then this interval is positive.
pub reconcile-Timely :
    (lib : Libraries) (policy : Policy) (reconcile_after : ℤ) (name : String)
    → Ensures (Timely reconcile_after) start (reconcile lib policy reconcile_after name)
unfolding reconcile
reconcile-Timely lib policy reconcile_after name = (
  tt,
  elim [
    | ok namespace ↦ namespace-Timely lib policy reconcile_after namespace _
    | err e ↦
        Ensures-if (Timely reconcile_after) _ (is_not_found e) (pure none) _ (λ _. Timely.never)
          (λ _. tt)
  ],
)
