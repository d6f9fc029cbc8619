-- ===== src/Contract/Handler.antt =====
-- The contract for `Reconcile` of internal/controller/namespace_reconciler.go, path by path.
use namespace_class.Base.{
  String, ◌≡◌, refl, ◌≢◌, inl, inr, Bool, true, false, Option, none, some, [], Bool-cases,
  if◌then◌else◌, ◌==◌,
}
use namespace_class.Base.Int.{ℤ}
use namespace_class.Errors.{Result, ok, err, is_not_found}
use namespace_class.Api.{Namespace, NamespaceClass, class_label_key}
use namespace_class.Policy.{Policy}
use namespace_class.Libraries.{Libraries, IsLawful}
use namespace_class.Resources.Objects.{value_in}
use namespace_class.Reconcile.Finalizer.{
  has_namespace_finalizer, ensure_namespace_finalizer, remove_namespace_finalizer,
}
use namespace_class.Reconcile.Status.{ClassReading, class_condition}
use namespace_class.Reconcile.Cleanup.{
  cleanup_binding_for_deleting_namespace, cleanup_binding_for_namespace,
}
use namespace_class.Reconcile.Binding.{
  settle_binding, with_binding, finalizer_for, reconcile_binding,
}
use namespace_class.Reconcile.Handler.{
  handle_deleting, after_cleanup, handle_unlabelled, handle_labelled, handle_namespace, reconcile,
}
use namespace_class.Cluster.{Exec, get_binding, call, next, bind}
use namespace_class.Cluster.Safety.{History, start, Extends, Safe, Safe-bind, Safe-post}
use namespace_class.Contract.{Seen, Guarded, Released, applied_refs, Duty}
use namespace_class.Contract.Monotone.{Seen-Extends, Resolved-Extends, Guarded-Extends}
use namespace_class.Contract.Cleanup.{Frees, Done, cleanup_deleting-Safe, cleanup_namespace-Safe}
use namespace_class.Contract.Binding.{
  Yields, yields, Reads, IsReading, IsShown, Protected, remove_finalizer-Safe,
  ensure_finalizer-Safe, class_condition-Safe, settle_binding-Safe,
}
use namespace_class.Contract.Update.{with_binding-Safe}

module _ (lib : Libraries) (policy : Policy) where
  abbrev Ends : {A : Type 0} → History → Result A → Type 0
  Ends _ _ = Unit {0}

  -- The finalizer is there if there is a class.
  abbrev Prepared : Option NamespaceClass → History → Namespace → Type 0
  Prepared class h namespace = Seen namespace h × (class ≢ none → Guarded h)

  Reads-Extends :
      {g h : History}
      → Extends g h
      → (class : Option NamespaceClass) (reading : ClassReading) → Reads lib policy g class reading
      → Reads lib policy h class reading
  Reads-Extends x none reading reads = reads
  Reads-Extends x (some class) reading reads = Resolved-Extends x reads

  finalizer_for-Safe :
      (namespace : Namespace) (class : Option NamespaceClass) (h : History)
      → Seen namespace h
      → applied_refs lib h ≡ []
      → Safe
          (Duty lib policy)
          (Yields lib policy (Prepared class))
          h
          (finalizer_for lib policy namespace class)
  unfolding finalizer_for
  finalizer_for-Safe namespace none h seen clean =
      yields lib policy h namespace clean (seen, λ absent. absurd (absent refl))
  finalizer_for-Safe namespace (some class) h seen clean =
      Safe-post (Duty lib policy) (Yields lib policy (Protected lib policy))
        (Yields lib policy (Prepared (some class))) h (ensure_namespace_finalizer namespace)
        (ensure_finalizer-Safe lib policy namespace h seen clean)
        λ h' r y x. record {
          clean = y.clean;
          holds = λ n e. let p = y.holds n e in (p.0, λ _. p.1);
        }

  -- After the finalizer.
  with_namespace-Safe :
      (law : IsLawful lib) (class_name : String) (reading : ClassReading) (h : History)
      (r : Result Namespace)
      → Reads lib policy h reading.class reading
      → Yields lib policy (Prepared reading.class) h r
      → Safe (Duty lib policy) Ends h (
          next
            (λ namespace.
              bind
                (call (get_binding namespace.name) (settle_binding namespace class_name))
                (next (with_binding lib policy namespace class_name reading)))
            r)
  with_namespace-Safe law class_name reading h (err e) reads y = tt
  with_namespace-Safe law class_name reading h (ok namespace) reads y =
      Safe-bind (Duty lib policy) Ends (Yields lib policy (IsShown lib policy)) h
        (call (get_binding namespace.name) (settle_binding namespace class_name))
        (next (with_binding lib policy namespace class_name reading))
        (tt, λ r. settle_binding-Safe lib policy namespace class_name h r y.clean)
        λ h'. elim [
          | ok binding ↦ λ shown x.
              with_binding-Safe lib policy namespace reading binding law class_name reading.class h'
                refl (Reads-Extends x reading.class reading reads)
                (λ there. Guarded-Extends x ((y.holds namespace refl).1 there))
                (Seen-Extends x (y.holds namespace refl).0) (shown.holds binding refl) shown.clean
          | err e ↦ λ shown x. tt
        ]

  reconcile_binding-Safe :
      (law : IsLawful lib) (namespace : Namespace) (class_name : String) (h : History)
      → Seen namespace h
      → applied_refs lib h ≡ []
      → Safe (Duty lib policy) Ends h (reconcile_binding lib policy namespace class_name)
  unfolding reconcile_binding
  reconcile_binding-Safe law namespace class_name h seen clean =
      Safe-bind (Duty lib policy) Ends (Yields lib policy (IsReading lib policy)) h
        (class_condition class_name) _ (class_condition-Safe lib policy class_name h clean)
        λ h'. elim [
          | ok reading ↦ λ y x.
              Safe-bind (Duty lib policy) Ends (Yields lib policy (Prepared reading.class)) h'
                (finalizer_for lib policy namespace reading.class) _
                (finalizer_for-Safe namespace reading.class h' (Seen-Extends x seen) y.clean)
                λ h'' r z w.
                  with_namespace-Safe law class_name reading h'' r
                    (Reads-Extends w reading.class reading (y.holds reading refl)) z
          | err e ↦ λ y x. tt
        ]

  Safe-if :
      {A : Type 0} (m n : Exec A) (h : History) (b : Bool)
      → (b ≡ true → Safe (Duty lib policy) Ends h m)
      → (b ≡ false → Safe (Duty lib policy) Ends h n)
      → Safe (Duty lib policy) Ends h (if b then m else n)
  Safe-if m n h true s t = s refl
  Safe-if m n h false s t = t refl

  module _ (reconcile_after : ℤ) (namespace : Namespace) where
    after_cleanup-Safe :
        (h : History) (r : Result Bool)
        → Seen namespace h
        → (r ≡ ok false → Released h)
        → Safe
            (Duty lib policy)
            Ends
            h
            (next (after_cleanup lib policy reconcile_after namespace) r)
    after_cleanup-Safe h (ok true) seen released = tt
    after_cleanup-Safe h (ok false) seen released =
        Safe-bind (Duty lib policy) Ends Ends h (remove_namespace_finalizer namespace) _
          (remove_finalizer-Safe lib policy namespace h seen (released refl))
          λ h'. elim [ ok done ↦ λ _ _. tt | err e ↦ λ _ _. tt ]
    after_cleanup-Safe h (err e) seen released = tt

    handle_unlabelled-Safe :
        (h : History)
        → Seen namespace h
        → applied_refs lib h ≡ []
        → Safe (Duty lib policy) Ends h (handle_unlabelled lib policy reconcile_after namespace)
    unfolding handle_unlabelled
    handle_unlabelled-Safe h seen clean =
        Safe-bind (Duty lib policy) Ends (Done lib policy namespace) h
          (cleanup_binding_for_namespace lib namespace) _
          (cleanup_namespace-Safe lib policy namespace h seen clean)
          λ h' r done x. after_cleanup-Safe h' r (Seen-Extends x seen) done

    handle_deleting-Safe :
        (h : History)
        → Seen namespace h
        → namespace.deleting ≡ true
        → applied_refs lib h ≡ []
        → Safe (Duty lib policy) Ends h (handle_deleting lib policy reconcile_after namespace)
    unfolding handle_deleting
    handle_deleting-Safe h seen deleting clean =
        elim (Bool-cases (has_namespace_finalizer namespace)) [
          | inr absent ↦ rw absent tt
          | inl present ↦ rw present (
              Safe-bind (Duty lib policy) Ends (Frees lib policy namespace) h
                (cleanup_binding_for_deleting_namespace lib namespace) _
                (cleanup_deleting-Safe lib policy namespace h seen deleting clean)
                λ h'. elim [
                  | ok done ↦ λ frees x.
                      Safe-bind (Duty lib policy) Ends Ends h'
                        (remove_namespace_finalizer namespace) _
                        (remove_finalizer-Safe lib policy namespace h' (Seen-Extends x seen)
                          (frees refl))
                        λ h''. elim [ ok done ↦ λ _ _. tt | err e ↦ λ _ _. tt ]
                  | err e ↦ λ _ _. tt
                ])
        ]

    handle_labelled-Safe :
        (law : IsLawful lib) (class_name : String) (h : History)
        → Seen namespace h
        → applied_refs lib h ≡ []
        → Safe
            (Duty lib policy)
            Ends
            h
            (handle_labelled lib policy reconcile_after namespace class_name)
    unfolding handle_labelled
    handle_labelled-Safe law class_name h seen clean =
        Safe-bind (Duty lib policy) Ends Ends h (reconcile_binding lib policy namespace class_name)
          _ (reconcile_binding-Safe law namespace class_name h seen clean)
          λ h'. elim [ ok done ↦ λ _ _. tt | err e ↦ λ _ _. tt ]

    handle_namespace-Safe :
        (law : IsLawful lib) (h : History)
        → Seen namespace h
        → applied_refs lib h ≡ []
        → Safe (Duty lib policy) Ends h (handle_namespace lib policy reconcile_after namespace)
    unfolding handle_namespace
    handle_namespace-Safe law h seen clean =
        Safe-if (handle_deleting lib policy reconcile_after namespace) _ h namespace.deleting
          (λ deleting. handle_deleting-Safe h seen deleting clean)
          (λ _.
            Safe-if (handle_unlabelled lib policy reconcile_after namespace)
              (handle_labelled lib policy reconcile_after namespace
                (value_in class_label_key (some namespace.labels)))
              h (value_in class_label_key (some namespace.labels) == "")
              (λ _. handle_unlabelled-Safe h seen clean)
              (λ _. handle_labelled-Safe law _ h seen clean))

  pub reconcile-Safe :
      (reconcile_after : ℤ) (name : String)
      → IsLawful lib
      → Safe (Duty lib policy) Ends start (reconcile lib policy reconcile_after name)
  unfolding reconcile applied_refs
  reconcile-Safe reconcile_after name law = (
    tt,
    elim [
      | ok namespace ↦ handle_namespace-Safe reconcile_after namespace law _ (Seen.read name) refl
      | err e ↦ elim (Bool-cases (is_not_found e)) [
        | inl absent ↦ rw absent tt
        | inr failed ↦ rw failed tt
      ]
    ],
  )
