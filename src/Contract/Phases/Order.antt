-- ===== src/Contract/Phases/Order.antt =====
-- The phases of `reconcileBinding` of internal/controller/namespace_reconciler.go, step by step.
use namespace_class.Base.{◌≡◌, refl, String, Bool-cases, inl, inr, []}
use namespace_class.Errors.{Result, ok, err, is_not_found}
use namespace_class.Api.{Namespace, NamespaceClass}
use namespace_class.Policy.{Policy}
use namespace_class.Libraries.{Libraries}
use namespace_class.Reconcile.Status.{ClassReading, read_class, missing_class, found_class}
use namespace_class.Reconcile.Binding.{
  settle_binding, with_binding, finalizer_for, reconcile_binding,
}
use namespace_class.Cluster.{call, bind, next, get_class, get_binding}
use namespace_class.Cluster.Safety.{History, start, past, Safe, Safe-bind, Safe-any}
use namespace_class.Contract.{applied_refs}
use namespace_class.Contract.Requests.Bindings.{finalizer_for-Only, settle-Only}
use namespace_class.Contract.Phases.{ReadClass, Missing, InPhase}
use namespace_class.Contract.Phases.Steps.{Preparing, Preparing-Safe}
use namespace_class.Contract.Phases.Handling.{
  IsReading, IsReading-Extends, Ends, with_binding-InPhase,
}

module _ (lib : Libraries) (policy : Policy) where
  with_namespace-InPhase :
      (class_name : String) (reading : ClassReading) (h : History) (r : Result Namespace)
      → IsReading reading reading.class h
      → applied_refs lib h ≡ []
      → Safe (InPhase lib) Ends h (
          next
            (λ namespace.
              bind
                (call (get_binding namespace.name) (settle_binding namespace class_name))
                (next (with_binding lib policy namespace class_name reading)))
            r)
  with_namespace-InPhase class_name reading h (err e) known clean = tt
  with_namespace-InPhase class_name reading h (ok namespace) known clean =
      Safe-bind (InPhase lib) Ends (λ h' _. Unit {0} × (applied_refs lib h' ≡ [])) h
        (call (get_binding namespace.name) (settle_binding namespace class_name))
        (next (with_binding lib policy namespace class_name reading))
        (Preparing-Safe lib Ends h
          (call (get_binding namespace.name) (settle_binding namespace class_name)) clean
          (settle-Only Preparing (λ _. tt) (λ _. tt) (λ _. tt) namespace class_name h)
          (Safe-any h (call (get_binding namespace.name) (settle_binding namespace class_name))))
        λ h'. elim [
          | ok binding ↦ λ q x.
              with_binding-InPhase lib policy namespace class_name reading binding reading.class h'
                refl (IsReading-Extends reading reading.class x known) q.1
          | err e ↦ λ q x. tt
        ]

  -- After the class's reading.
  after_reading-InPhase :
      (namespace : Namespace) (class_name : String) (reading : ClassReading) (h : History)
      → IsReading reading reading.class h
      → applied_refs lib h ≡ []
      → Safe (InPhase lib) Ends h (
          bind (finalizer_for lib policy namespace reading.class) (
            next (λ namespace'.
              bind
                (call (get_binding namespace'.name) (settle_binding namespace' class_name))
                (next (with_binding lib policy namespace' class_name reading)))))
  after_reading-InPhase namespace class_name reading h known clean =
      Safe-bind (InPhase lib) Ends (λ h' _. Unit {0} × (applied_refs lib h' ≡ [])) h
        (finalizer_for lib policy namespace reading.class) _
        (Preparing-Safe lib Ends h (finalizer_for lib policy namespace reading.class) clean
          (finalizer_for-Only Preparing (λ _. tt) lib policy namespace reading.class h)
          (Safe-any h (finalizer_for lib policy namespace reading.class)))
        λ h' r q x.
          with_namespace-InPhase class_name reading h' r
            (IsReading-Extends reading reading.class x known) q.1

  after_class-InPhase :
      (namespace : Namespace) (class_name : String) (r : Result NamespaceClass)
      → Safe (InPhase lib) Ends (past start (get_class class_name) r) (
          bind (read_class class_name r) (
            next (λ reading. bind (finalizer_for lib policy namespace reading.class) (
              next (λ namespace'.
                bind
                  (call (get_binding namespace'.name) (settle_binding namespace' class_name))
                  (next (with_binding lib policy namespace' class_name reading)))))))
  unfolding read_class bind applied_refs
  after_class-InPhase namespace class_name (ok class) =
      after_reading-InPhase namespace class_name (found_class class) _ (ReadClass.read class_name)
        refl
  after_class-InPhase namespace class_name (err e) = elim (Bool-cases (is_not_found e)) [
    | inl missing ↦ rw missing (
        after_reading-InPhase namespace class_name (missing_class class_name)
          (past start (get_class class_name) (err e)) (Missing.absent class_name e missing, refl)
          refl)
    | inr failed ↦ rw failed tt
  ]

-- In the history of the handling of a labelled namespace alone: scopes are resolved only before
-- anything has been applied; a stale object is deleted only after the class was not found, or was
-- read and as many objects were applied as it has resources; and a status is written with a
-- condition that is false, or after as many objects were applied as the class has resources.
pub reconcile_binding-InPhase :
    (lib : Libraries) (policy : Policy) (namespace : Namespace) (class_name : String)
    → Safe (InPhase lib) (λ _ _. Unit {0}) start (reconcile_binding lib policy namespace class_name)
unfolding reconcile_binding bind
reconcile_binding-InPhase lib policy namespace class_name =
    (tt, λ r. after_class-InPhase lib policy namespace class_name r)
