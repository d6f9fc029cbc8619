-- ===== src/Contract.antt =====
-- What the controller of internal/controller/namespace_reconciler.go owes the cluster, as
-- conditions on each request in the history of requests and responses in which it is made.
pub mod Monotone
pub mod Stale
pub mod Finish
pub mod Prepare
pub mod Apply
pub mod Record
pub mod Cleanup
pub mod Binding
pub mod Update
pub mod Handler
pub mod Guarantees
pub mod Outcomes
pub mod DefaultPolicy
pub mod Requeue
pub mod Rest
pub mod Phases
pub mod Recorded
pub mod Distinct
pub mod ClassRead
pub mod Requests
pub mod Quiet
pub mod TakingAway
pub mod Foreign
use namespace_class.Base.{ℕ, String, ◌≡◌, ◌⊎◌, Bool, true, false, Option, none, some, List, [], ◌∷◌}
use namespace_class.Base.Dict.{has}
use namespace_class.Base.Lists.{All}
use namespace_class.GroupVersionKind.{GroupVersionKind}
use namespace_class.Errors.{Error, Result, ok, err, is_not_found}
use namespace_class.Json.{Fields}
use namespace_class.Api.{
  Namespace, NamespaceClass, NamespaceClassBinding, ResourceRef, Condition, condition_true,
}
use namespace_class.Policy.{Policy, validate}
use namespace_class.Libraries.{Libraries}
use namespace_class.Inventory.{resource_ref_key, cluster_scoped_resource_refs}
use namespace_class.Inventory.Merge.{keys}
use namespace_class.Resources.Objects.{is_managed_by_namespace, ref_of, read_request}
use namespace_class.Resources.Apply.{field_manager}
use namespace_class.Resources.Stale.{object_from_resource_ref}
use namespace_class.Reconcile.Finalizer.{has_namespace_finalizer, with_finalizer, without_finalizer}
use namespace_class.Reconcile.Binding.{new_binding}
use namespace_class.Reconcile.Status.{with_status}
use namespace_class.Cluster.{
  Request, Response, get_namespace, get_class, get_binding, get_object, list_bindings, rest_mapping,
  create_binding, update_binding, update_status, delete_binding, update_namespace, apply,
  delete_object,
}
use namespace_class.Cluster.Safety.{History, start, past, Extends, here, later}

-- The server has shown this namespace.
pub data Seen (namespace : Namespace) : History → Type 0 where
  read : {h : History} (name : String) → Seen namespace (past h (get_namespace name) (ok namespace))
  updated :
      {h : History} (n : Namespace) → Seen namespace (past h (update_namespace n) (ok namespace))
  earlier :
      {h : History} (q : Request) (r : Result (Response q))
      → Seen namespace h
      → Seen namespace (past h q r)

-- The server has shown this binding.
pub data Shown (binding : NamespaceClassBinding) : History → Type 0 where
  read : {h : History} (name : String) → Shown binding (past h (get_binding name) (ok binding))
  earlier :
      {h : History} (q : Request) (r : Result (Response q))
      → Shown binding h
      → Shown binding (past h q r)

-- The class has been read.
pub data Resolved : History → Type 0 where
  read :
      {h : History} (name : String) (class : NamespaceClass)
      → Resolved (past h (get_class name) (ok class))
  earlier :
      {h : History} (q : Request) (r : Result (Response q)) → Resolved h → Resolved (past h q r)

-- The namespace has the controller's finalizer: it was seen with it, or the finalizer was added.
pub data Guarded : History → Type 0 where
  seen :
      {h : History} (namespace : Namespace)
      → Seen namespace h
      → has_namespace_finalizer namespace ≡ true
      → Guarded h
  added :
      {h : History} (n : Namespace) (stored : Namespace)
      → Guarded (past h (update_namespace (with_finalizer n)) (ok stored))
  earlier : {h : History} (q : Request) (r : Result (Response q)) → Guarded h → Guarded (past h q r)

-- The namespace has no binding: the server did not find it, or deleted it.
pub data Released : History → Type 0 where
  absent :
      {h : History} (name : String) (e : Error)
      → is_not_found e ≡ true
      → Released (past h (get_binding name) (err e))
  deleted : {h : History} (b : NamespaceClassBinding) → Released (past h (delete_binding b) (ok tt))
  gone :
      {h : History} (b : NamespaceClassBinding) (e : Error)
      → is_not_found e ≡ true
      → Released (past h (delete_binding b) (err e))
  earlier :
      {h : History} (q : Request) (r : Result (Response q)) → Released h → Released (past h q r)

module _ (lib : Libraries) where
  open lib use {group_version_kind, get_namespace as namespace_of, get_name}

  -- The object of a reference is gone: a read did not find it, or what a read returned was deleted.
  pub data Gone (ref : ResourceRef) : History → Type 0 where
    absent :
        {h : History} (object : Fields) (e : Error)
        → object_from_resource_ref lib ref ≡ ok object
        → is_not_found e ≡ true
        → Gone ref (past h (read_request lib object) (err e))
    deleted :
        {h : History} (object found : Fields)
        → object_from_resource_ref lib ref ≡ ok object
        → Gone ref
            (past (past h (read_request lib object) (ok found)) (delete_object found) (ok tt))
    vanished :
        {h : History} (object found : Fields) (e : Error)
        → object_from_resource_ref lib ref ≡ ok object
        → is_not_found e ≡ true
        → Gone ref
            (past (past h (read_request lib object) (ok found)) (delete_object found) (err e))
    earlier :
        {h : History} (q : Request) (r : Result (Response q)) → Gone ref h → Gone ref (past h q r)

  -- The object has just been read, and carries the marks of a namespace that the server has shown.
  pub data Deletable (object : Fields) : History → Type 0 where
    just_read :
        {h : History} (kind : GroupVersionKind) (namespace name : String) (owner : Namespace)
        → Seen owner h
        → is_managed_by_namespace lib object owner ≡ true
        → Deletable object (past h (get_object kind namespace name) (ok object))

  -- No object that is not the namespace's stands under this identity.
  pub data Free (owner : Namespace) (kind : GroupVersionKind) (namespace name : String)
      : History → Type 0 where
    absent :
        {h : History} (e : Error)
        → is_not_found e ≡ true
        → Free owner kind namespace name (past h (get_object kind namespace name) (err e))
    owned :
        {h : History} (existing : Fields)
        → is_managed_by_namespace lib existing owner ≡ true
        → Free owner kind namespace name (past h (get_object kind namespace name) (ok existing))
    earlier :
        {h : History} (q : Request) (r : Result (Response q))
        → Free owner kind namespace name h
        → Free owner kind namespace name (past h q r)

  -- An object that may be applied for a namespace.
  pub record Ready (policy : Policy) (owner : Namespace) (object : Fields) (h : History)
      : Type 0 where
    pub permitted : validate policy (group_version_kind object) ≡ ok tt
    pub marked : is_managed_by_namespace lib object owner ≡ true
    pub free : Free owner (group_version_kind object) (namespace_of object) (get_name object) h

  -- The references of the objects that have been applied, the last first.
  unfoldable pub applied_refs : History → List ResourceRef
  applied_refs start = []
  applied_refs (past h (apply owner object) (ok _)) = ref_of lib object ∷ applied_refs h
  applied_refs (past h q r) = applied_refs h

  -- What a status update may write: a shown binding with a new inventory and condition. No
  -- reference of the old inventory is left out unless its object is gone; no applied object is left
  -- out; and under a true condition nothing else is listed.
  pub record Recording (h : History) (b : NamespaceClassBinding) : Type 0 where
    pub base : NamespaceClassBinding
    pub owner : Namespace
    pub class_generation : ℕ
    pub inventory : List ResourceRef
    pub condition : Condition
    pub shown : Shown base h
    pub written : b ≡ with_status lib base owner class_generation inventory condition
    pub kept :
        All
          (λ ref. (has (resource_ref_key ref) (keys inventory) ≡ true) ⊎ Gone ref h)
          base.status.inventory
    pub recorded :
        (k : String) → has k (keys (applied_refs h)) ≡ true → has k (keys inventory) ≡ true
    pub exact :
        condition.status ≡ condition_true
        → (k : String) → has k (keys inventory) ≡ has k (keys (applied_refs h))

  -- What a binding's deletion needs: the objects of its inventory are gone, those without a
  -- namespace alone if the namespace is being deleted.
  abbrev pub Emptied : History → NamespaceClassBinding → Type 0
  Emptied h b =
      All (λ ref. Gone ref h) b.status.inventory
      ⊎ ((namespace : Namespace) × Seen namespace h
          × (namespace.deleting ≡ true)
          × All (λ ref. Gone ref h) (cluster_scoped_resource_refs b.status.inventory))

  -- A namespace is written only to add the finalizer, or to remove it when there is no binding.
  abbrev pub Finalizing : History → Namespace → Type 0
  Finalizing h n =
      ((namespace : Namespace) × Seen namespace h × (n ≡ with_finalizer namespace))
      ⊎ ((namespace : Namespace) × Seen namespace h
          × (n ≡ without_finalizer namespace)
          × Released h)

  abbrev pub Duty : Policy → History → Request → Type 0
  Duty policy h (apply manager object) =
      (manager ≡ field_manager)
      × ((owner : Namespace) × Seen owner h × Ready policy owner object h)
      × Guarded h
      × Resolved h
  Duty policy h (delete_object object) = Deletable object h
  Duty policy h (delete_binding b) = Shown b h × Emptied h b
  Duty policy h (update_status b) = Recording h b
  Duty policy h (update_namespace n) = Finalizing h n
  Duty policy h _ = Unit {0}
