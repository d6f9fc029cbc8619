-- ===== src/Contract/Outcomes.antt =====
-- Outcomes of operations of internal/controller/namespace_reconciler.go.
use namespace_class.Base.{◌≡◌, refl, ◌⊎◌, true, List}
use namespace_class.Base.Dict.{has}
use namespace_class.Base.Lists.{All}
use namespace_class.Errors.{Result, ok, err}
use namespace_class.Api.{Namespace, ResourceRef}
use namespace_class.Policy.{Policy}
use namespace_class.Libraries.{Libraries}
use namespace_class.Inventory.{resource_ref_key}
use namespace_class.Inventory.Merge.{keys}
use namespace_class.Resources.Stale.{delete_stale_managed_resources}
use namespace_class.Reconcile.Finalizer.{without_finalizer}
use namespace_class.Reconcile.Handler.{Requeue}
use namespace_class.Cluster.{Exec, Program, bind, next, update_namespace}
use namespace_class.Cluster.Safety.{History, past, Safe, Safe-bind, Safe-outcome, Safe-any}
use namespace_class.Contract.{Seen, Released, Gone, Duty}
use namespace_class.Contract.Stale.{Swept, delete_stale-Safe}

-- The condition is for a value, not for an error.
abbrev pub Valued : {A : Type 0} → (History → A → Type 0) → History → Result A → Type 0
Valued Q h (ok a) = Q h a
Valued Q h (err e) = Unit {0}

-- `Q` holds of each outcome of the program, in the history at the end, whatever the responses are.
abbrev pub Ensures : {A : Type 0} → (History → A → Type 0) → History → Exec A → Type 0
Ensures Q h m = Safe (λ _ _. Unit {0}) (Valued Q) h m

-- After any step.
pub Ensures-bind :
    {A B : Type 0} (Q : History → B → Type 0) (h : History) (m : Program A) (f : A → Exec B)
    → ((h' : History) (a : A) → Ensures Q h' (f a))
    → Ensures Q h (bind m f)
Ensures-bind Q h m f go =
    Safe-bind (λ _ _. Unit {0}) (Valued Q) (λ _ _. Unit {0}) h m f (Safe-any h m)
      (λ h' a _ _. go h' a)

-- After a step that succeeds.
pub Ensures-next :
    {A B : Type 0} (Q : History → B → Type 0) (f : A → Exec B)
    → ((h : History) (a : A) → Ensures Q h (f a))
    → (h : History) (r : Result A) → Ensures Q h (next f r)
Ensures-next Q f go h (ok a) = go h a
Ensures-next Q f go h (err e) = tt

module _ (lib : Libraries) (policy : Policy) where
  -- Each reference is still wanted, or its object is gone.
  abbrev pub Cleared : List ResourceRef → List ResourceRef → History → Unit {0} → Type 0
  Cleared previous wanted h _ =
      All (λ ref. (has (resource_ref_key ref) (keys wanted) ≡ true) ⊎ Gone lib ref h) previous

  -- For a namespace that the server has returned: where the deletion of stale resources succeeds,
  -- each previous reference has the key of a desired one, or its object was not found or was
  -- deleted.
  pub delete_stale_managed_resources-Cleared :
      (namespace : Namespace) (previous wanted : List ResourceRef) (h : History)
      → Seen namespace h
      → Ensures
          (Cleared previous wanted)
          h
          (delete_stale_managed_resources lib namespace previous wanted)
  delete_stale_managed_resources-Cleared namespace previous wanted h seen =
      Safe-outcome (Duty lib policy) (Swept lib policy namespace (keys wanted) h previous)
        (Valued (Cleared previous wanted)) h
        (delete_stale_managed_resources lib namespace previous wanted)
        (delete_stale-Safe lib policy namespace previous wanted h seen)
        λ h'. elim [ ok done ↦ λ swept. swept.settled refl | err e ↦ λ swept. tt ]

  -- The last request removed the finalizer, and there was no binding when it was made.
  pub data Finalized (namespace : Namespace) : History → Type 0 where
    removed :
        {h : History} (stored : Namespace)
        → Released h
        → Finalized namespace (past h (update_namespace (without_finalizer namespace)) (ok stored))

  abbrev pub Ending : Namespace → History → Requeue → Type 0
  Ending namespace h _ = Finalized namespace h
