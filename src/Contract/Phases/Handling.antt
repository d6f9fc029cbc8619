-- ===== src/Contract/Phases/Handling.antt =====
-- The phases of `reconcileBinding` of internal/controller/namespace_reconciler.go once the binding is
-- there.
use namespace_class.Base.{◌≡◌, refl, ℕ, String, inl, inr, arith, Option, none, some, List, []}
use namespace_class.Base.Lists.{length}
use namespace_class.Reason.{Reason, cleanup_failed}
use namespace_class.Errors.{Error, Result, ok, err, Message, is_not_found}
use namespace_class.Api.{
  Namespace, NamespaceClass, NamespaceClassBinding, ResourceRef, condition_false,
}
use namespace_class.Policy.{Policy}
use namespace_class.Libraries.{Libraries}
use namespace_class.Resources.Prepare.{prepare_managed_resources}
use namespace_class.Resources.Apply.{apply_prepared, apply_managed_resources}
use namespace_class.Resources.Stale.{delete_stale_managed_resources}
use namespace_class.Reconcile.Finalizer.{remove_namespace_finalizer}
use namespace_class.Reconcile.Status.{ClassReading, failure, update_binding_failure_status}
use namespace_class.Reconcile.Cleanup.{drop_binding}
use namespace_class.Reconcile.Binding.{
  cleanup_message, after_missing_class, after_stale, after_apply, with_binding,
}
use namespace_class.Cluster.Safety.{History, Extends, Safe, Safe-bind}
use namespace_class.Contract.{applied_refs}
use namespace_class.Contract.Outcomes.{Valued}
use namespace_class.Contract.Distinct.{Distinct, prepare_managed_resources-Distinct}
use namespace_class.Contract.Requests.{Only, Only-if}
use namespace_class.Contract.Requests.Objects.{prepare_managed_resources-Only, delete_stale-Only}
use namespace_class.Contract.Requests.Bindings.{remove_finalizer-Only}
use namespace_class.Contract.Phases.{ReadClass, Missing, Complete, InPhase}
use namespace_class.Contract.Phases.Steps.{
  ReadClass-Extends, Missing-Extends, Preparing, Finishing, Preparing-Safe, Known, Complete-Extends,
  Finishing-Safe, AllApplied, apply_loop-AllApplied,
}

drop_binding-Finishing :
    (binding : NamespaceClassBinding) (namespace : Namespace) (m : Message) (h : History)
    → Only Finishing h (drop_binding binding m (remove_namespace_finalizer namespace))
unfolding drop_binding
drop_binding-Finishing binding namespace m h =
    let rest : (g : History) → Only Finishing g (remove_namespace_finalizer namespace) =
      λ g. remove_finalizer-Only Finishing (λ _. tt) namespace g in
    (
      tt,
      elim [
        | ok done ↦ rest _
        | err e ↦ Only-if Finishing _ (is_not_found e) _ _ (λ _. rest _) (λ _. tt)
      ],
    )

-- With the reading of the class.
abbrev pub IsReading : ClassReading → Option NamespaceClass → History → Type 0
IsReading reading none h = Missing h × (reading.condition.status ≡ condition_false)
IsReading reading (some class) h = ReadClass class h

pub IsReading-Extends :
    (reading : ClassReading) (class : Option NamespaceClass) {g h : History}
    → Extends g h
    → IsReading reading class g
    → IsReading reading class h
IsReading-Extends reading none x known = (Missing-Extends x known.0, known.1)
IsReading-Extends reading (some class) x known = ReadClass-Extends x known

abbrev pub Ends : {A : Type 0} → History → A → Type 0
Ends _ _ = Unit {0}

module _ (lib : Libraries) (policy : Policy) where
  stale-InPhase :
      (namespace : Namespace) (previous desired : List ResourceRef) (h : History)
      → Known lib h
      → Safe (InPhase lib) Ends h (delete_stale_managed_resources lib namespace previous desired)
  stale-InPhase namespace previous desired h known =
      Finishing-Safe lib h (delete_stale_managed_resources lib namespace previous desired) known
        (delete_stale-Only Finishing lib namespace (λ _ _ _. tt) (λ _. tt) previous desired h)

  drop_binding-InPhase :
      (binding : NamespaceClassBinding) (namespace : Namespace) (m : Message) (h : History)
      → Missing h
      → Safe (InPhase lib) Ends h (drop_binding binding m (remove_namespace_finalizer namespace))
  drop_binding-InPhase binding namespace m h missing =
      Finishing-Safe lib h (drop_binding binding m (remove_namespace_finalizer namespace))
        (inr missing) (drop_binding-Finishing binding namespace m h)

  failure-InPhase :
      (binding : NamespaceClassBinding) (namespace : Namespace) (generation : ℕ) (reason : Reason)
      (m : Message) (inventory : List ResourceRef) (h : History)
      → Safe
          (InPhase lib)
          Ends
          h
          (update_binding_failure_status lib binding namespace generation reason m inventory)
  unfolding update_binding_failure_status
  failure-InPhase binding namespace generation reason m inventory h = (
    (binding, namespace, generation, inventory, failure lib reason m, refl, inl refl),
    elim [ ok done ↦ tt | err e ↦ tt ],
  )

  apply_managed_resources-AllApplied :
      (namespace : Namespace) (class : NamespaceClass) (h : History)
      → applied_refs lib h ≡ []
      → Safe
          (InPhase lib)
          (AllApplied lib (length class.resources))
          h
          (apply_managed_resources lib policy namespace class)
  unfolding apply_managed_resources
  apply_managed_resources-AllApplied namespace class h clean =
      Safe-bind (InPhase lib) (AllApplied lib (length class.resources))
        (λ h' r. Valued (Distinct (length class.resources)) h' r × (applied_refs lib h' ≡ [])) h
        (prepare_managed_resources lib policy namespace class) (apply_prepared lib)
        (Preparing-Safe lib (Valued (Distinct (length class.resources))) h
          (prepare_managed_resources lib policy namespace class) clean
          (prepare_managed_resources-Only Preparing lib namespace (λ _ _ _. tt) (λ _. tt) policy
            class h)
          (prepare_managed_resources-Distinct lib policy namespace class h))
        λ h'. elim [
          | ok resources ↦ λ q x.
              apply_loop-AllApplied lib resources [] (length class.resources) h'
                (rw q.1 (omega (arith, q.0.0)))
          | err e ↦ λ q x. tt
        ]

  module _ (namespace : Namespace) (class_name : String) (reading : ClassReading)
      (binding : NamespaceClassBinding) where
    after_missing_class-InPhase :
        (h : History) (r : Result (Unit {0}))
        → reading.condition.status ≡ condition_false
        → Missing h
        → Safe
            (InPhase lib)
            Ends
            h
            (after_missing_class lib policy namespace class_name reading binding r)
    unfolding after_missing_class
    after_missing_class-InPhase h (ok done) false_condition missing =
        drop_binding-InPhase binding namespace _ h missing
    after_missing_class-InPhase h (err e) false_condition missing = (
      (
        binding,
        namespace,
        _,
        _,
        record reading.condition {
          reason = cleanup_failed;
          message = cleanup_message lib policy class_name e;
        },
        refl,
        inl false_condition,
      ),
      elim [ ok done ↦ tt | err other ↦ tt ],
    )

    after_stale-InPhase :
        (inventory : List ResourceRef) (h : History) (r : Result (Unit {0}))
        → Complete lib h
        → Safe (InPhase lib) Ends h (after_stale lib policy namespace reading binding inventory r)
    unfolding after_stale
    after_stale-InPhase inventory h (ok done) complete = (
      (binding, namespace, _, inventory, reading.condition, refl, inr complete),
      elim [ ok written ↦ tt | err other ↦ tt ],
    )
    after_stale-InPhase inventory h (err e) complete = failure-InPhase binding namespace _ _ _ _ h

    after_apply-InPhase :
        (class : NamespaceClass) (h : History) (result : List ResourceRef × Option Error)
        → ReadClass class h
        → AllApplied lib (length class.resources) h result
        → Safe (InPhase lib) Ends h (after_apply lib policy namespace reading binding result)
    unfolding after_apply
    after_apply-InPhase class h (inventory, some e) was_read count =
        failure-InPhase binding namespace _ _ _ _ h
    after_apply-InPhase class h (inventory, none) was_read count =
        Safe-bind (InPhase lib) Ends Ends h
          (delete_stale_managed_resources lib namespace binding.status.inventory inventory)
          (after_stale lib policy namespace reading binding inventory)
          (stale-InPhase namespace binding.status.inventory inventory h
            (inl (Complete.applied class was_read count)))
          λ h' r _ x.
            after_stale-InPhase inventory h' r
              (Complete-Extends lib x (Complete.applied class was_read count))

    pub with_binding-InPhase :
        (class : Option NamespaceClass) (h : History)
        → reading.class ≡ class
        → IsReading reading class h
        → applied_refs lib h ≡ []
        → Safe (InPhase lib) Ends h (with_binding lib policy namespace class_name reading binding)
    unfolding with_binding
    with_binding-InPhase none h e known clean =
        rw (e, with_binding)
          (Safe-bind (InPhase lib) Ends Ends h
            (delete_stale_managed_resources lib namespace binding.status.inventory [])
            (after_missing_class lib policy namespace class_name reading binding)
            (stale-InPhase namespace binding.status.inventory [] h (inr known.0))
            λ h' r _ x. after_missing_class-InPhase h' r known.1 (Missing-Extends x known.0))
    with_binding-InPhase (some class) h e was_read clean =
        rw (e, with_binding)
          (Safe-bind (InPhase lib) Ends (AllApplied lib (length class.resources)) h
            (apply_managed_resources lib policy namespace class)
            (after_apply lib policy namespace reading binding)
            (apply_managed_resources-AllApplied namespace class h clean)
            λ h' result count x.
              after_apply-InPhase class h' result (ReadClass-Extends x was_read) count)
