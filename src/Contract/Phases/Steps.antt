-- ===== src/Contract/Phases/Steps.antt =====
-- Programs of few kinds of requests in the phases of `reconcileBinding` of
-- internal/controller/namespace_reconciler.go.
use namespace_class.Base.{
  ◌≡◌, ℕ, ◌+◌, ◌⊎◌, inl, inr, arith, Option, none, some, List, [], ◌∷◌, ◌++◌,
}
use namespace_class.Base.Lists.{length}
use namespace_class.Errors.{Error, Result, ok, err}
use namespace_class.Api.{NamespaceClass, ResourceRef}
use namespace_class.Libraries.{Libraries}
use namespace_class.Resources.Prepare.{PreparedManagedResource}
use namespace_class.Resources.Apply.{apply_loop}
use namespace_class.Cluster.{
  Request, Response, Program, ret, call, rest_mapping, apply, delete_object, update_status,
}
use namespace_class.Cluster.Safety.{History, past, Extends, here, later, Safe}
use namespace_class.Contract.{applied_refs}
use namespace_class.Contract.Requests.{Only}
use namespace_class.Contract.Phases.{ReadClass, Missing, Complete, InPhase}

pub ReadClass-Extends :
    {class : NamespaceClass} {g h : History} → Extends g h → ReadClass class g → ReadClass class h
ReadClass-Extends here s = s
ReadClass-Extends (later q r e) s = ReadClass.earlier q r (ReadClass-Extends e s)

pub Missing-Extends : {g h : History} → Extends g h → Missing g → Missing h
Missing-Extends here s = s
Missing-Extends (later q r e) s = Missing.earlier q r (Missing-Extends e s)

-- Requests before the first apply.
abbrev pub Preparing : Request → Type 0
Preparing (apply _ _) = ⊥
Preparing (delete_object _) = ⊥
Preparing (update_status _) = ⊥
Preparing _ = Unit {0}

-- Requests after the last apply, but for the status.
abbrev pub Finishing : Request → Type 0
Finishing (rest_mapping _) = ⊥
Finishing (update_status _) = ⊥
Finishing _ = Unit {0}

module _ (lib : Libraries) where
  Preparing-InPhase :
      (h : History) (q : Request) → applied_refs lib h ≡ [] → Preparing q → InPhase lib h q
  Preparing-InPhase h (rest_mapping _) clean p = clean
  Preparing-InPhase h (apply _ _) clean p = absurd p
  Preparing-InPhase h (delete_object _) clean p = absurd p
  Preparing-InPhase h (update_status _) clean p = absurd p
  Preparing-InPhase h _ clean p = tt

  Preparing-clean :
      (h : History) (q : Request) (r : Result (Response q))
      → applied_refs lib h ≡ []
      → Preparing q
      → applied_refs lib (past h q r) ≡ []
  unfolding applied_refs
  Preparing-clean h (apply _ _) r clean p = absurd p
  Preparing-clean h (delete_object _) r clean p = clean
  Preparing-clean h _ r clean p = clean

  -- Nothing is applied while preparing.
  pub Preparing-Safe :
      {A : Type 0} (Q : History → A → Type 0) (h : History) (m : Program A)
      → applied_refs lib h ≡ []
      → Only Preparing h m
      → Safe (λ _ _. Unit {0}) Q h m
      → Safe (InPhase lib) (λ h' a. Q h' a × (applied_refs lib h' ≡ [])) h m
  Preparing-Safe Q h (ret a) clean only s = (s, clean)
  Preparing-Safe Q h (call q k) clean only s = (
    Preparing-InPhase h q clean only.0,
    λ r.
        Preparing-Safe Q (past h q r) (k r) (Preparing-clean h q r clean only.0) (only.1 r) (s.1 r),
  )

  abbrev pub Known : History → Type 0
  Known h = Complete lib h ⊎ Missing h

  pub Known-Extends : {g h : History} → Extends g h → Known g → Known h
  Known-Extends here k = k
  Known-Extends (later q r e) k = elim (Known-Extends e k) [
    | inl complete ↦ inl (Complete.earlier q r complete)
    | inr missing ↦ inr (Missing.earlier q r missing)
  ]

  pub Complete-Extends : {g h : History} → Extends g h → Complete lib g → Complete lib h
  Complete-Extends here c = c
  Complete-Extends (later q r e) c = Complete.earlier q r (Complete-Extends e c)

  Finishing-InPhase : (h : History) (q : Request) → Known h → Finishing q → InPhase lib h q
  Finishing-InPhase h (delete_object _) known p = known
  Finishing-InPhase h (rest_mapping _) known p = absurd p
  Finishing-InPhase h (update_status _) known p = absurd p
  Finishing-InPhase h _ known p = tt

  pub Finishing-Safe :
      {A : Type 0} (h : History) (m : Program A)
      → Known h
      → Only Finishing h m
      → Safe (InPhase lib) (λ _ _. Unit {0}) h m
  Finishing-Safe h (ret a) known only = tt
  Finishing-Safe h (call q k) known only = (
    Finishing-InPhase h q known only.0,
    λ r. Finishing-Safe (past h q r) (k r) (Known-Extends (later q r here) known) (only.1 r),
  )

  -- Without an error, so many objects have been applied.
  abbrev pub AllApplied : ℕ → History → List ResourceRef × Option Error → Type 0
  AllApplied n h (refs, none) = length (applied_refs lib h) ≡ n
  AllApplied n h (refs, some e) = Unit {0}

  pub apply_loop-AllApplied :
      (resources : List PreparedManagedResource) (refs : List ResourceRef) (n : ℕ) (h : History)
      → length (applied_refs lib h) + length resources ≡ n
      → Safe (InPhase lib) (AllApplied n) h (apply_loop lib resources refs)
  unfolding apply_loop applied_refs
  apply_loop-AllApplied [] refs n h count = omega (arith, count)
  apply_loop-AllApplied (p ∷ resources) refs n h count = (
    tt,
    elim [
      | ok done ↦ apply_loop-AllApplied resources (refs ++ p.ref ∷ []) n _ (omega (arith, count))
      | err e ↦ tt
    ],
  )
