-- ===== src/Contract/Update.antt =====
-- The contract for `reconcileBinding` of internal/controller/namespace_reconciler.go from the
-- binding on: applying, deleting and recording.
use namespace_class.Base.{◌≢◌}
use namespace_class.Reconcile.Binding.{cleanup_message}
use namespace_class.Base.{String, ◌≡◌, refl, sym, ap, ◌∙◌, inl, Option, none, some, List, []}
use namespace_class.Base.Dict.{has}
use namespace_class.Base.Lists.{All}
use namespace_class.Reason.{cleanup_failed, delete_failed}
use namespace_class.Errors.{Error, Result, ok, err, message}
use namespace_class.Api.{
  Namespace, NamespaceClass, NamespaceClassBinding, ResourceRef, condition_false,
}
use namespace_class.Policy.{Policy}
use namespace_class.Libraries.{Libraries, IsLawful}
use namespace_class.Inventory.{merge_resource_refs}
use namespace_class.Inventory.Merge.{keys}
use namespace_class.Resources.Stale.{delete_stale_managed_resources}
use namespace_class.Resources.Apply.{apply_managed_resources}
use namespace_class.Reconcile.Status.{ClassReading, reason_for_apply_error}
use namespace_class.Reconcile.Binding.{after_missing_class, after_stale, after_apply, with_binding}
use namespace_class.Cluster.Safety.{History, Safe, Safe-bind}
use namespace_class.Contract.{Seen, Shown, Guarded, Gone, applied_refs, Duty}
use namespace_class.Contract.Monotone.{Seen-Extends, Shown-Extends}
use namespace_class.Contract.Stale.{Settled, Swept, delete_stale-Safe}
use namespace_class.Contract.Apply.{Lists, apply_managed_resources-Safe}
use namespace_class.Contract.Record.{
  Keeps-self, Keeps-merge, Covers-merge, Covers-clean, failure-Safe,
}
use namespace_class.Contract.Cleanup.{drop_binding-Safe, All-Gone}
use namespace_class.Contract.Binding.{Reads, remove_finalizer-Safe}

module _ (lib : Libraries) (policy : Policy) where
  abbrev Ends : History → Result (Unit {0}) → Type 0
  Ends _ _ = Unit {0}

  module _ (namespace : Namespace) (reading : ClassReading) (binding : NamespaceClassBinding) where
    after_missing_class-Safe :
        (class_name : String) (h : History) (r : Result (Unit {0}))
        → reading.condition.status ≡ condition_false
        → Seen namespace h
        → Shown binding h
        → applied_refs lib h ≡ []
        → (r ≡ ok tt → All (λ ref. Gone lib ref h) binding.status.inventory)
        → Safe
            (Duty lib policy)
            Ends
            h
            (after_missing_class lib policy namespace class_name reading binding r)
    unfolding after_missing_class
    after_missing_class-Safe class_name h (ok done) false_condition seen shown clean gone =
        drop_binding-Safe lib policy Ends binding _ _ h shown (inl (gone refl))
          (λ h' x released.
            remove_finalizer-Safe lib policy namespace h' (Seen-Extends x seen) released)
          (λ h' e. tt)
    after_missing_class-Safe class_name h (err error) false_condition seen shown clean gone = (
      record {
        base = binding;
        owner = namespace;
        class_generation = reading.generation;
        inventory = binding.status.inventory;
        condition = record reading.condition {
          reason = cleanup_failed;
          message = cleanup_message lib policy class_name error;
        };
        shown = shown;
        written = refl;
        kept = Keeps-self lib h binding.status.inventory;
        recorded = Covers-clean lib h _ clean;
        exact = λ e. cc (e, false_condition);
      },
      elim [ ok done ↦ tt | err e ↦ tt ],
    )

    after_stale-Safe :
        (inventory : List ResourceRef) (h : History) (r : Result (Unit {0}))
        → Shown binding h
        → Lists lib inventory h
        → (r ≡ ok tt
            → All (Settled lib policy namespace (keys inventory) h) binding.status.inventory)
        → Safe
            (Duty lib policy)
            Ends
            h
            (after_stale lib policy namespace reading binding inventory r)
    unfolding after_stale
    after_stale-Safe inventory h (ok done) shown same settled = (
      record {
        base = binding;
        owner = namespace;
        class_generation = reading.generation;
        inventory = inventory;
        condition = reading.condition;
        shown = shown;
        written = refl;
        kept = settled refl;
        recorded = λ k applied. same k ∙ applied;
        exact = λ _. same;
      },
      elim [ ok done ↦ tt | err e ↦ tt ],
    )
    after_stale-Safe inventory h (err error) shown same settled =
        failure-Safe lib h policy binding namespace reading.generation delete_failed (message error)
          (merge_resource_refs binding.status.inventory inventory) shown
          (Keeps-merge lib h binding.status.inventory inventory)
          (Covers-merge lib h binding.status.inventory inventory same)

    after_apply-Safe :
        (h : History) (result : List ResourceRef × Option Error)
        → Seen namespace h
        → Shown binding h
        → Lists lib result.0 h
        → Safe (Duty lib policy) Ends h (after_apply lib policy namespace reading binding result)
    unfolding after_apply
    after_apply-Safe h (inventory, some error) seen shown same =
        failure-Safe lib h policy binding namespace reading.generation
          (reason_for_apply_error error) (message error)
          (merge_resource_refs binding.status.inventory inventory) shown
          (Keeps-merge lib h binding.status.inventory inventory)
          (Covers-merge lib h binding.status.inventory inventory same)
    after_apply-Safe h (inventory, none) seen shown same =
        Safe-bind (Duty lib policy) Ends
          (Swept lib policy namespace (keys inventory) h binding.status.inventory) h
          (delete_stale_managed_resources lib namespace binding.status.inventory inventory)
          (after_stale lib policy namespace reading binding inventory)
          (delete_stale-Safe lib policy namespace binding.status.inventory inventory h seen)
          λ h' r swept x.
            after_stale-Safe inventory h' r (Shown-Extends x shown)
              (λ k. same k ∙ ap (λ refs. has k (keys refs)) (sym swept.same)) swept.settled

    pub with_binding-Safe :
        (law : IsLawful lib) (class_name : String) (class : Option NamespaceClass) (h : History)
        → reading.class ≡ class
        → Reads lib policy h class reading
        → (class ≢ none → Guarded h)
        → Seen namespace h
        → Shown binding h
        → applied_refs lib h ≡ []
        → Safe
            (Duty lib policy)
            Ends
            h
            (with_binding lib policy namespace class_name reading binding)
    unfolding with_binding
    with_binding-Safe law class_name none h e reads guarded seen shown clean =
        rw (e, with_binding)
          (Safe-bind (Duty lib policy) Ends
            (Swept lib policy namespace [] h binding.status.inventory) h
            (delete_stale_managed_resources lib namespace binding.status.inventory [])
            (after_missing_class lib policy namespace class_name reading binding)
            (delete_stale-Safe lib policy namespace binding.status.inventory [] h seen)
            λ h' r swept x.
              after_missing_class-Safe class_name h' r reads (Seen-Extends x seen)
                (Shown-Extends x shown) (swept.same ∙ clean)
                (λ done. All-Gone lib policy namespace h' _ (swept.settled done)))
    with_binding-Safe law class_name (some class) h e reads guarded seen shown clean =
        rw (e, with_binding)
          (Safe-bind (Duty lib policy) Ends (λ h' result. Lists lib result.0 h') h
            (apply_managed_resources lib policy namespace class)
            (after_apply lib policy namespace reading binding)
            (apply_managed_resources-Safe lib law policy namespace class h
              (record { seen = seen; guarded = guarded (λ x. cc x); resolved = reads }) clean)
            λ h' result same x.
              after_apply-Safe h' result (Seen-Extends x seen) (Shown-Extends x shown) same)
