-- ===== src/Contract/Rest.antt =====
-- When `Reconcile` of internal/controller/namespace_reconciler.go asks for no other pass.
use namespace_class.Base.{◌≡◌, ℕ, suc, String, true, false, none, some, ◌⊎◌}
use namespace_class.Base.Int.{ℤ, pos}
use namespace_class.Errors.{Error, Result, ok, err, is_not_found}
use namespace_class.Api.{Namespace, class_label_key}
use namespace_class.Policy.{Policy}
use namespace_class.Libraries.{Libraries}
use namespace_class.Resources.Objects.{value_in}
use namespace_class.Reconcile.Finalizer.{has_namespace_finalizer}
use namespace_class.Reconcile.Handler.{Requeue}
use namespace_class.Cluster.{Request, Response, get_namespace}
use namespace_class.Cluster.Safety.{History, start, past}
use namespace_class.Contract.{Released}
use namespace_class.Contract.Outcomes.{Valued}

-- The first request has returned the namespace.
pub data Opened (namespace : Namespace) : History → Type 0 where
  first : (name : String) → Opened namespace (past start (get_namespace name) (ok namespace))
  earlier :
      {h : History} (q : Request) (r : Result (Response q))
      → Opened namespace h
      → Opened namespace (past h q r)

-- Nothing is left to do: there is no namespace; or it is being deleted, and has no finalizer or no
-- binding; or it has no class label, and no binding.
pub data Idle : History → Type 0 where
  no_namespace :
      (name : String) (e : Error)
      → is_not_found e ≡ true
      → Idle (past start (get_namespace name) (err e))
  ending :
      {h : History} (namespace : Namespace)
      → Opened namespace h
      → namespace.deleting ≡ true
      → (has_namespace_finalizer namespace ≡ false) ⊎ Released h
      → Idle h
  without_class :
      {h : History} (namespace : Namespace)
      → Opened namespace h
      → value_in class_label_key (some namespace.labels) ≡ ""
      → Released h
      → Idle h

-- Another pass after the interval, or nothing left to do.
abbrev pub Rests : ℤ → History → Requeue → Type 0
Rests reconcile_after h none = Idle h
Rests reconcile_after h (some interval) = interval ≡ reconcile_after

module _ (lib : Libraries) (policy : Policy) (n : ℕ) (namespace : Namespace) where
  abbrev Aim : History → Result Requeue → Type 0
  Aim = Valued (Rests (pos (suc n)))
