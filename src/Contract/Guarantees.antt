-- ===== src/Contract/Guarantees.antt =====
-- The contract for `Reconcile` of internal/controller/namespace_reconciler.go, by kinds of requests.
use namespace_class.Base.{String, ◌≡◌}
use namespace_class.Base.Int.{ℤ}
use namespace_class.Api.{Namespace}
use namespace_class.Policy.{Policy}
use namespace_class.Libraries.{Libraries, IsLawful}
use namespace_class.Resources.Apply.{field_manager}
use namespace_class.Reconcile.Handler.{reconcile}
use namespace_class.Cluster.{
  Request, Exec, apply, delete_object, delete_binding, update_status, update_namespace,
}
use namespace_class.Cluster.Safety.{History, start, Safe, Safe-weaken}
use namespace_class.Contract.{
  Seen, Shown, Resolved, Guarded, Deletable, Ready, Recording, Emptied, Finalizing, Duty,
}
use namespace_class.Contract.Handler.{reconcile-Safe}

-- `P` holds of each request of the program, in the history in which it is made.
abbrev pub Always : {A : Type 0} → (History → Request → Type 0) → Exec A → Type 0
Always P m = Safe P (λ _ _. Unit {0}) start m

module _ (lib : Libraries) (policy : Policy) (reconcile_after : ℤ) where
  by_contract :
      (P : History → Request → Type 0) (name : String)
      → IsLawful lib
      → ((h : History) (q : Request) → Duty lib policy h q → P h q)
      → Always P (reconcile lib policy reconcile_after name)
  by_contract P name law f =
      Safe-weaken (Duty lib policy) P (λ _ _. Unit {0}) start
        (reconcile lib policy reconcile_after name)
        (reconcile-Safe lib policy reconcile_after name law) f

  abbrev pub DeletesOwned : History → Request → Type 0
  DeletesOwned h (delete_object object) = Deletable lib object h
  DeletesOwned h _ = Unit {0}

  deletes_owned : (h : History) (q : Request) → Duty lib policy h q → DeletesOwned h q
  deletes_owned h (delete_object object) d = d
  deletes_owned h _ d = tt

  -- For lawful accessors of objects: in each run of the handler, an object is deleted only when the
  -- request just before it read that object, and the object carried the managed-by label and the
  -- namespace annotation of a namespace that the server has returned.
  pub reconcile-DeletesOwned :
      (name : String)
      → IsLawful lib
      → Always DeletesOwned (reconcile lib policy reconcile_after name)
  reconcile-DeletesOwned name law = by_contract DeletesOwned name law deletes_owned

  abbrev pub AppliesPermitted : History → Request → Type 0
  AppliesPermitted h (apply manager object) =
      (manager ≡ field_manager)
      × ((owner : Namespace) × Seen owner h × Ready lib policy owner object h)
  AppliesPermitted h _ = Unit {0}

  applies_permitted : (h : History) (q : Request) → Duty lib policy h q → AppliesPermitted h q
  applies_permitted h (apply manager object) d = (d.0, d.1)
  applies_permitted h _ d = tt

  -- For lawful accessors of objects: in each run of the handler, every applied object has a kind
  -- that the policy permits, is applied under the controller's field manager, and carries the
  -- marks of a namespace that the server has returned; and an earlier read under the object's kind,
  -- namespace and name was answered with "not found" or with an object of that namespace.
  pub reconcile-AppliesPermitted :
      (name : String)
      → IsLawful lib
      → Always AppliesPermitted (reconcile lib policy reconcile_after name)
  reconcile-AppliesPermitted name law = by_contract AppliesPermitted name law applies_permitted

  abbrev pub AppliesGuarded : History → Request → Type 0
  AppliesGuarded h (apply manager object) = Guarded h × Resolved h
  AppliesGuarded h _ = Unit {0}

  applies_guarded : (h : History) (q : Request) → Duty lib policy h q → AppliesGuarded h q
  applies_guarded h (apply manager object) d = (d.2, d.3)
  applies_guarded h _ d = tt

  -- For lawful accessors of objects: in each run of the handler, an object is applied only after
  -- the class was read, and after a namespace was returned with the finalizer or an update that
  -- adds the finalizer succeeded.
  pub reconcile-AppliesGuarded :
      (name : String)
      → IsLawful lib
      → Always AppliesGuarded (reconcile lib policy reconcile_after name)
  reconcile-AppliesGuarded name law = by_contract AppliesGuarded name law applies_guarded

  abbrev pub DropsEmptied : History → Request → Type 0
  DropsEmptied h (delete_binding b) = Shown b h × Emptied lib h b
  DropsEmptied h _ = Unit {0}

  drops_emptied : (h : History) (q : Request) → Duty lib policy h q → DropsEmptied h q
  drops_emptied h (delete_binding b) d = d
  drops_emptied h _ d = tt

  -- For lawful accessors of objects: in each run of the handler, a binding is deleted only as the
  -- server returned it, and after each object of its inventory was not found or was deleted; where
  -- a returned namespace is being deleted, after each object without a namespace was.
  pub reconcile-DropsEmptied :
      (name : String)
      → IsLawful lib
      → Always DropsEmptied (reconcile lib policy reconcile_after name)
  reconcile-DropsEmptied name law = by_contract DropsEmptied name law drops_emptied

  abbrev pub KeepsFinalizer : History → Request → Type 0
  KeepsFinalizer h (update_namespace n) = Finalizing lib h n
  KeepsFinalizer h _ = Unit {0}

  abbrev pub RecordsInventory : History → Request → Type 0
  RecordsInventory h (update_status b) = Recording lib h b
  RecordsInventory h _ = Unit {0}

  records_inventory : (h : History) (q : Request) → Duty lib policy h q → RecordsInventory h q
  records_inventory h (update_status b) d = d
  records_inventory h _ d = tt

  -- For lawful accessors of objects: in each run of the handler, a status that is written is that
  -- of a returned binding with a new inventory and condition. The new inventory has the key of each
  -- reference of the old one, unless the object of the reference was not found or was deleted, and
  -- the key of each object that was applied; under a condition with status "True" it has no other
  -- key.
  pub reconcile-RecordsInventory :
      (name : String)
      → IsLawful lib
      → Always RecordsInventory (reconcile lib policy reconcile_after name)
  reconcile-RecordsInventory name law = by_contract RecordsInventory name law records_inventory
