-- ===== src/Contract/Binding.antt =====
-- The contract for `reconcileBinding` of internal/controller/namespace_reconciler.go up to the
-- binding: the class, the finalizer, and the read, creation or update of the binding.
use namespace_class.Cluster.{request_or}
use namespace_class.Base.{
  String, ◌≡◌, refl, inl, inr, Option, none, some, [], Bool-cases, ◌==◌, ◌||◌, not,
}
use namespace_class.Errors.{Error, Result, ok, err, Message, ok-injective, is_not_found}
use namespace_class.Api.{Namespace, NamespaceClass, NamespaceClassBinding, condition_false}
use namespace_class.Policy.{Policy}
use namespace_class.Libraries.{Libraries}
use namespace_class.Reconcile.Finalizer.{
  has_namespace_finalizer, ensure_namespace_finalizer, remove_namespace_finalizer,
}
use namespace_class.Reconcile.Status.{ClassReading, class_condition, missing_class, found_class}
use namespace_class.Reconcile.Binding.{settle_binding}
use namespace_class.Cluster.{get_binding}
use namespace_class.Cluster.Safety.{History, past, Safe}
use namespace_class.Contract.{Seen, Shown, Resolved, Guarded, Released, applied_refs, Duty}

module _ (lib : Libraries) (policy : Policy) where
  -- A value that comes with a property, and nothing applied.
  pub record Yields {A : Type 0} (P : History → A → Type 0) (h : History) (r : Result A)
      : Type 0 where
    pub clean : applied_refs lib h ≡ []
    pub holds : (a : A) → r ≡ ok a → P h a

  pub yields :
      {A : Type 0} {P : History → A → Type 0} (h : History) (a : A)
      → applied_refs lib h ≡ []
      → P h a
      → Yields P h (ok a)
  yields {P} h a clean p = record { clean = clean; holds = λ b e. rw (← ok-injective e) p }

  pub fails :
      {A : Type 0} {P : History → A → Type 0} (h : History) (e : Error)
      → applied_refs lib h ≡ []
      → Yields P h (err e)
  fails h e clean = record { clean = clean; holds = λ b x. cc x }

  pub remove_finalizer-Safe :
      (namespace : Namespace) (h : History)
      → Seen namespace h
      → Released h
      → Safe (Duty lib policy) (λ _ _. Unit {0}) h (remove_namespace_finalizer namespace)
  unfolding remove_namespace_finalizer
  remove_finalizer-Safe namespace h seen released =
      elim (Bool-cases (has_namespace_finalizer namespace)) [
        | inl present ↦
            rw present (inr (namespace, seen, refl, released), elim [ ok stored ↦ tt | err e ↦ tt ])
        | inr absent ↦ rw absent tt
      ]

  abbrev pub Protected : History → Namespace → Type 0
  Protected h namespace = Seen namespace h × Guarded h

  pub ensure_finalizer-Safe :
      (namespace : Namespace) (h : History)
      → Seen namespace h
      → applied_refs lib h ≡ []
      → Safe (Duty lib policy) (Yields Protected) h (ensure_namespace_finalizer namespace)
  unfolding ensure_namespace_finalizer applied_refs
  ensure_finalizer-Safe namespace h seen clean =
      elim (Bool-cases (has_namespace_finalizer namespace)) [
        | inl present ↦
            rw present (yields h namespace clean (seen, Guarded.seen namespace seen present))
        | inr absent ↦ rw absent (
          inl (namespace, seen, refl),
          elim [
            | ok stored ↦ yields _ stored clean (Seen.updated _, Guarded.added namespace stored)
            | err e ↦ fails _ _ clean
          ],
        )
      ]

  -- A class that is there has been read; for a missing one the condition is false.
  abbrev pub Reads : History → Option NamespaceClass → ClassReading → Type 0
  Reads h none reading = reading.condition.status ≡ condition_false
  Reads h (some class) reading = Resolved h

  abbrev pub IsReading : History → ClassReading → Type 0
  IsReading h reading = Reads h reading.class reading

  pub class_condition-Safe :
      (class_name : String) (h : History)
      → applied_refs lib h ≡ []
      → Safe (Duty lib policy) (Yields IsReading) h (class_condition class_name)
  unfolding class_condition applied_refs
  class_condition-Safe class_name h clean = (
    tt,
    elim [
      | ok class ↦ yields _ (found_class class) clean (Resolved.read class_name class)
      | err e ↦ elim (Bool-cases (is_not_found e)) [
        | inl absent ↦ rw absent (yields _ (missing_class class_name) clean refl)
        | inr failed ↦ rw failed (fails _ _ clean)
      ]
    ],
  )

  abbrev pub IsShown : History → NamespaceClassBinding → Type 0
  IsShown h binding = Shown binding h

  reread-Safe :
      (name : String) (m : Message) (h : History)
      → applied_refs lib h ≡ []
      → Safe (Duty lib policy) (Yields IsShown) h (request_or (get_binding name) m)
  unfolding applied_refs
  reread-Safe name m h clean =
      (tt, elim [ ok binding ↦ yields _ binding clean (Shown.read name) | err e ↦ fails _ _ clean ])

  pub settle_binding-Safe :
      (namespace : Namespace) (class_name : String) (h : History) (r : Result NamespaceClassBinding)
      → applied_refs lib h ≡ []
      → Safe
          (Duty lib policy)
          (Yields IsShown)
          (past h (get_binding namespace.name) r)
          (settle_binding namespace class_name r)
  unfolding settle_binding applied_refs
  settle_binding-Safe namespace class_name h (err e) clean = elim (Bool-cases (is_not_found e)) [
    | inl absent ↦
        rw absent (
          tt,
          elim [ ok done ↦ reread-Safe namespace.name _ _ clean | err other ↦ fails _ _ clean ],
        )
    | inr failed ↦ rw failed (fails _ _ clean)
  ]
  settle_binding-Safe namespace class_name h (ok binding) clean =
      elim (Bool-cases (
        not (binding.namespace_name == namespace.name) || not (binding.class_name == class_name))) [
          | inl differs ↦ rw differs (
            tt,
            elim [ ok done ↦ reread-Safe namespace.name _ _ clean | err other ↦ fails _ _ clean ],
          )
          | inr agrees ↦ rw agrees (yields _ binding clean (Shown.read namespace.name))
        ]
