-- ===== src/Contract/Phases.antt =====
-- The order of `reconcileBinding` of internal/controller/namespace_reconciler.go: preparing,
-- applying, deleting what is stale, recording.
pub mod Steps
pub mod Handling
pub mod Order
use namespace_class.Base.{
  ◌≡◌, refl, sym, ap, ◌∙◌, ℕ, suc, ◌+◌, String, Bool, true, false, Bool-cases, ◌⊎◌, inl, inr, arith,
  Option, none, some, List, [], ◌∷◌, ◌++◌,
}
use namespace_class.Base.Lists.{length}
use namespace_class.Reason.{Reason, delete_failed}
use namespace_class.Errors.{Error, Result, ok, err, Message, message, is_not_found}
use namespace_class.Api.{
  Namespace, NamespaceClass, NamespaceClassBinding, ResourceRef, Condition, condition_true,
  condition_false,
}
use namespace_class.Policy.{Policy}
use namespace_class.Libraries.{Libraries}
use namespace_class.Inventory.{merge_resource_refs}
use namespace_class.Resources.Prepare.{PreparedManagedResource, prepare_managed_resources}
use namespace_class.Resources.Apply.{apply_loop, apply_prepared, apply_managed_resources}
use namespace_class.Resources.Stale.{delete_stale_managed_resources}
use namespace_class.Reconcile.Finalizer.{remove_namespace_finalizer}
use namespace_class.Reconcile.Status.{
  ClassReading, read_class, class_condition, missing_class, found_class, with_status,
  reason_for_apply_error, update_binding_failure_status,
}
use namespace_class.Reconcile.Cleanup.{drop_binding}
use namespace_class.Reconcile.Binding.{
  settle_binding, after_missing_class, after_stale, after_apply, with_binding, finalizer_for,
  reconcile_binding,
}
use namespace_class.Cluster.{
  Request, Response, Exec, Program, ret, call, bind, next, get_class, get_binding, rest_mapping,
  apply, delete_object, update_status, request_or,
}
use namespace_class.Cluster.Safety.{
  History, start, past, Extends, here, later, Safe, Safe-bind, Safe-post,
}
use namespace_class.Contract.{applied_refs}
use namespace_class.Contract.Outcomes.{Ensures, Valued}
use namespace_class.Contract.Distinct.{Distinct, prepare_managed_resources-Distinct}
use namespace_class.Contract.Requests.{Only}
use namespace_class.Contract.Requests.Objects.{prepare_managed_resources-Only, delete_stale-Only}
use namespace_class.Contract.Requests.Bindings.{
  finalizer_for-Only, settle-Only, remove_finalizer-Only,
}

-- The class has been read, and was this.
pub data ReadClass (class : NamespaceClass) : History → Type 0 where
  read : {h : History} (name : String) → ReadClass class (past h (get_class name) (ok class))
  earlier :
      {h : History} (q : Request) (r : Result (Response q))
      → ReadClass class h
      → ReadClass class (past h q r)

-- The class was not found.
pub data Missing : History → Type 0 where
  absent :
      {h : History} (name : String) (e : Error)
      → is_not_found e ≡ true
      → Missing (past h (get_class name) (err e))
  earlier : {h : History} (q : Request) (r : Result (Response q)) → Missing h → Missing (past h q r)

module _ (lib : Libraries) where
  -- As many objects as the class has resources have been applied.
  pub data Complete : History → Type 0 where
    applied :
        {h : History} (class : NamespaceClass)
        → ReadClass class h
        → length (applied_refs lib h) ≡ length class.resources
        → Complete h
    earlier :
        {h : History} (q : Request) (r : Result (Response q)) → Complete h → Complete (past h q r)

  -- Scopes are resolved before anything is applied; objects are deleted when all is applied or the
  -- class is missing; and a condition is false, or all is applied.
  abbrev pub InPhase : History → Request → Type 0
  InPhase h (rest_mapping _) = applied_refs lib h ≡ []
  InPhase h (delete_object _) = Complete h ⊎ Missing h
  InPhase h (update_status b) =
      (base : NamespaceClassBinding) × (namespace : Namespace) × (generation : ℕ)
      × (inventory : List ResourceRef) × (condition : Condition) × (b
          ≡ with_status lib base namespace generation inventory condition)
      × ((condition.status ≡ condition_false) ⊎ Complete h)
  InPhase h _ = Unit {0}
