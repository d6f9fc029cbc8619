-- ===== src/Contract/Cleanup.antt =====
-- The contract for `cleanupBindingForDeletingNamespace` and `cleanupBindingForNamespace` of
-- internal/controller/namespace_reconciler.go.
use namespace_class.Cluster.Safety.{Extends-trans}
use namespace_class.Errors.{message}
use namespace_class.Reason.{delete_failed}
use namespace_class.Reconcile.Status.{update_binding_failure_status}
use namespace_class.Base.{
  ◌≡◌, refl, ◌∙◌, inl, inr, Bool, true, false, false≢true, List, [], Bool-cases,
}
use namespace_class.Base.Dict.{has}
use namespace_class.Base.Lists.{All, All-map}
use namespace_class.Errors.{Error, Result, ok, err, Message, is_not_found}
use namespace_class.Api.{Namespace, NamespaceClassBinding, ResourceRef}
use namespace_class.Policy.{Policy}
use namespace_class.Libraries.{Libraries}
use namespace_class.Inventory.{cluster_scoped_resource_refs}
use namespace_class.Reconcile.Cleanup.{
  drop_binding, after_cluster_scoped, cleanup_binding_for_deleting_namespace, after_inventory,
  cleanup_binding_for_namespace,
}
use namespace_class.Cluster.{Exec, bind, next, fail, pure}
use namespace_class.Cluster.Safety.{History, Extends, here, later, Safe, Safe-bind}
use namespace_class.Contract.{Seen, Shown, Released, Gone, applied_refs, Emptied, Duty}
use namespace_class.Contract.Monotone.{Seen-Extends, Shown-Extends}
use namespace_class.Contract.Stale.{Settled, Swept, delete_stale-Safe}
use namespace_class.Contract.Record.{Keeps-self, Covers-clean, failure-Safe}

module _ (lib : Libraries) (policy : Policy) where
  pub drop_binding-Safe :
      {A : Type 0} (Q : History → Result A → Type 0) (binding : NamespaceClassBinding) (m : Message)
      (rest : Exec A) (h : History)
      → Shown binding h
      → Emptied lib h binding
      → ((h' : History) → Extends h h' → Released h' → Safe (Duty lib policy) Q h' rest)
      → ((h' : History) (e : Error) → Q h' (err e))
      → Safe (Duty lib policy) Q h (drop_binding binding m rest)
  unfolding drop_binding
  drop_binding-Safe Q binding m rest h shown emptied go fails = (
    (shown, emptied),
    elim [
      | ok done ↦ go _ (later _ _ here) (Released.deleted binding)
      | err e ↦ elim (Bool-cases (is_not_found e)) [
        | inl gone ↦ rw gone (go _ (later _ _ here) (Released.gone binding e gone))
        | inr failed ↦ rw failed (fails _ _)
      ]
    ],
  )

  -- Where nothing is desired any more, what is settled is gone.
  pub All-Gone :
      (namespace : Namespace) (h : History) (refs : List ResourceRef)
      → All (Settled lib policy namespace [] h) refs
      → All (λ ref. Gone lib ref h) refs
  unfolding has
  All-Gone namespace h refs settled =
      All-map _ _ refs (λ ref. elim [ inl wanted ↦ absurd (false≢true wanted) | inr gone ↦ gone ])
        settled

  module _ (namespace : Namespace) where
    -- Success means that there is no binding left.
    abbrev pub Frees : History → Result (Unit {0}) → Type 0
    Frees h r = r ≡ ok tt → Released h

    -- The cleanup is over, and not to be tried again.
    abbrev pub Done : History → Result Bool → Type 0
    Done h r = r ≡ ok false → Released h

    -- A failed deletion is recorded, and the handler goes on with a value or an error.
    record_failure-Safe :
        {A : Type 0} (Q : History → Result A → Type 0) (binding : NamespaceClassBinding)
        (error : Error) (h : History) (rest : Exec A)
        → Shown binding h
        → applied_refs lib h ≡ []
        → ((h' : History) → Safe (Duty lib policy) Q h' rest)
        → ((h' : History) (e : Error) → Q h' (err e))
        → Safe (Duty lib policy) Q h (
            bind
              (update_binding_failure_status lib binding namespace
                binding.status.observed_class_generation delete_failed
                (message error)
                binding.status.inventory)
              (next (λ _. rest)))
    record_failure-Safe Q binding error h rest shown clean go fails =
        Safe-bind (Duty lib policy) Q (λ _ _. Unit {0}) h
          (update_binding_failure_status lib binding namespace
            binding.status.observed_class_generation delete_failed (message error)
            binding.status.inventory)
          (next (λ _. rest))
          (failure-Safe lib h policy binding namespace binding.status.observed_class_generation
            delete_failed (message error) binding.status.inventory shown
            (Keeps-self lib h binding.status.inventory) (Covers-clean lib h _ clean))
          (λ h'. elim [ ok done ↦ λ q x. go h' | err other ↦ λ q x. fails h' other ])

    after_cluster_scoped-Safe :
        (binding : NamespaceClassBinding) (h : History) (r : Result (Unit {0}))
        → Seen namespace h
        → namespace.deleting ≡ true
        → Shown binding h
        → applied_refs lib h ≡ []
        → (r ≡ ok tt
            → All (λ ref. Gone lib ref h) (cluster_scoped_resource_refs binding.status.inventory))
        → Safe (Duty lib policy) Frees h (after_cluster_scoped lib namespace binding r)
    unfolding after_cluster_scoped
    after_cluster_scoped-Safe binding h (ok done) seen deleting shown clean gone =
        drop_binding-Safe Frees binding _ _ h shown (inr (namespace, seen, deleting, gone refl))
          (λ h' x released _. released) (λ h' e x. cc x)
    after_cluster_scoped-Safe binding h (err error) seen deleting shown clean gone =
        record_failure-Safe Frees binding error h (fail error) shown clean (λ h'. λ e. cc e)
          (λ h' other e. cc e)

    after_inventory-Safe :
        (binding : NamespaceClassBinding) (h : History) (r : Result (Unit {0}))
        → Shown binding h
        → applied_refs lib h ≡ []
        → (r ≡ ok tt → All (λ ref. Gone lib ref h) binding.status.inventory)
        → Safe (Duty lib policy) Done h (after_inventory lib namespace binding r)
    unfolding after_inventory
    after_inventory-Safe binding h (ok done) shown clean gone =
        drop_binding-Safe Done binding _ _ h shown (inl (gone refl)) (λ h' x released _. released)
          (λ h' e x. cc x)
    after_inventory-Safe binding h (err error) shown clean gone =
        record_failure-Safe Done binding error h (pure true) shown clean (λ h'. λ e. cc e)
          (λ h' other e. cc e)

    pub cleanup_deleting-Safe :
        (h : History)
        → Seen namespace h
        → namespace.deleting ≡ true
        → applied_refs lib h ≡ []
        → Safe (Duty lib policy) Frees h (cleanup_binding_for_deleting_namespace lib namespace)
    unfolding cleanup_binding_for_deleting_namespace applied_refs
    cleanup_deleting-Safe h seen deleting clean = (
      tt,
      elim [
        | ok binding ↦
            Safe-bind (Duty lib policy) Frees
              (Swept lib policy namespace [] _
                (cluster_scoped_resource_refs binding.status.inventory))
              _ _ _
              (delete_stale-Safe lib policy namespace _ [] _ (Seen-Extends (later _ _ here) seen))
              λ h' r swept x.
                after_cluster_scoped-Safe binding h' r
                  (Seen-Extends (Extends-trans (later _ _ here) x) seen) deleting
                  (Shown-Extends x (Shown.read namespace.name)) (swept.same ∙ clean)
                  (λ e. All-Gone namespace h' _ (swept.settled e))
        | err e ↦ elim (Bool-cases (is_not_found e)) [
          | inl absent ↦ rw absent (λ _. Released.absent namespace.name e absent)
          | inr failed ↦ rw failed (λ x. cc x)
        ]
      ],
    )

    pub cleanup_namespace-Safe :
        (h : History)
        → Seen namespace h
        → applied_refs lib h ≡ []
        → Safe (Duty lib policy) Done h (cleanup_binding_for_namespace lib namespace)
    unfolding cleanup_binding_for_namespace applied_refs
    cleanup_namespace-Safe h seen clean = (
      tt,
      elim [
        | ok binding ↦
            Safe-bind (Duty lib policy) Done
              (Swept lib policy namespace [] _ binding.status.inventory) _ _ _
              (delete_stale-Safe lib policy namespace _ [] _ (Seen-Extends (later _ _ here) seen))
              λ h' r swept x.
                after_inventory-Safe binding h' r (Shown-Extends x (Shown.read namespace.name))
                  (swept.same ∙ clean) (λ e. All-Gone namespace h' _ (swept.settled e))
        | err e ↦ elim (Bool-cases (is_not_found e)) [
          | inl absent ↦ rw absent (λ _. Released.absent namespace.name e absent)
          | inr failed ↦ rw failed (λ x. cc x)
        ]
      ],
    )
