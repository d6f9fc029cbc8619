-- ===== src/Contract/ClassRead.antt =====
-- The requests of `reconcileBinding` of internal/controller/namespace_reconciler.go around the
-- read of the class.
use namespace_class.Base.{◌≡◌, refl, String, true, Bool-cases, ◌⊎◌, inl, inr}
use namespace_class.Errors.{Error, Result, ok, err, is_not_found}
use namespace_class.Api.{Namespace, NamespaceClass}
use namespace_class.Policy.{Policy}
use namespace_class.Libraries.{Libraries}
use namespace_class.Reconcile.Status.{ClassReading, read_class, found_class, missing_class}
use namespace_class.Reconcile.Binding.{reconcile_binding}
use namespace_class.Cluster.{Request, Response, Program, Exec, ret, call, bind, next, get_class}
use namespace_class.Cluster.Safety.{History, start, past, Safe}
use namespace_class.Contract.{Resolved}

-- The class has been read, or was not found.
pub data ClassKnown : History → Type 0 where
  read : {h : History} → Resolved h → ClassKnown h
  absent :
      {h : History} (name : String) (e : Error)
      → is_not_found e ≡ true
      → ClassKnown (past h (get_class name) (err e))
  earlier :
      {h : History} (q : Request) (r : Result (Response q)) → ClassKnown h → ClassKnown (past h q r)

-- A request that reads the class, or one that is made when the class is known.
abbrev pub ReadsClassFirst : String → History → Request → Type 0
ReadsClassFirst class_name h q = (q ≡ get_class class_name) ⊎ ClassKnown h

-- Once the class is known it stays so.
known-Safe :
    {A : Type 0} (class_name : String) (h : History) (m : Program A)
    → ClassKnown h
    → Safe (ReadsClassFirst class_name) (λ _ _. Unit {0}) h m
known-Safe class_name h (ret a) known = tt
known-Safe class_name h (call q k) known =
    (inr known, λ r. known-Safe class_name _ (k r) (ClassKnown.earlier q r known))

after_read-Safe :
    {A : Type 0} (class_name : String) (h : History) (f : ClassReading → Exec A)
    (r : Result NamespaceClass)
    → Safe
        (ReadsClassFirst class_name)
        (λ _ _. Unit {0})
        (past h (get_class class_name) r)
        (bind (read_class class_name r) (next f))
unfolding read_class bind
after_read-Safe class_name h f (ok class) =
    known-Safe class_name _ (f (found_class class))
      (ClassKnown.read (Resolved.read class_name class))
after_read-Safe class_name h f (err e) = elim (Bool-cases (is_not_found e)) [
  | inl missing ↦ rw missing (
      known-Safe class_name (past h (get_class class_name) (err e)) (f (missing_class class_name))
        (ClassKnown.absent class_name e missing))
  | inr failed ↦ rw failed tt
]

-- In the history of the handling of a labelled namespace alone, every request but the read of the
-- class is made after the class was read or was not found: after another error there is none.
pub reconcile_binding-ReadsClassFirst :
    (lib : Libraries) (policy : Policy) (namespace : Namespace) (class_name : String)
    → Safe
        (ReadsClassFirst class_name)
        (λ _ _. Unit {0})
        start
        (reconcile_binding lib policy namespace class_name)
unfolding reconcile_binding bind
reconcile_binding-ReadsClassFirst lib policy namespace class_name =
    (inl refl, λ r. after_read-Safe class_name start _ r)
