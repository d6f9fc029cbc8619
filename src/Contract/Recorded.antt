-- ===== src/Contract/Recorded.antt =====
-- The outcome of `reconcileBinding` of internal/controller/namespace_reconciler.go.
use namespace_class.Base.{
  ◌≡◌, refl, true, String, Bool-cases, inl, inr, Option, none, some, List, [],
}
use namespace_class.Errors.{Error, Result, ok, err, Message, is_not_found}
use namespace_class.Api.{Namespace, NamespaceClass, NamespaceClassBinding, ResourceRef}
use namespace_class.Policy.{Policy}
use namespace_class.Libraries.{Libraries}
use namespace_class.Resources.Apply.{apply_managed_resources}
use namespace_class.Resources.Stale.{delete_stale_managed_resources}
use namespace_class.Reconcile.Finalizer.{remove_namespace_finalizer}
use namespace_class.Reconcile.Status.{
  ClassReading, read_class, missing_class, found_class, update_binding_failure_status,
}
use namespace_class.Reconcile.Cleanup.{drop_binding}
use namespace_class.Reconcile.Binding.{
  settle_binding, after_missing_class, after_stale, after_apply, with_binding, finalizer_for,
  reconcile_binding,
}
use namespace_class.Cluster.{
  Request, Response, Exec, Program, ret, get_binding, get_class, update_status, delete_binding,
  call, next, bind, request_or,
}
use namespace_class.Cluster.Safety.{
  History, start, past, Extends, here, later, Safe, Safe-bind, Safe-post, Safe-any,
}
use namespace_class.Contract.Requests.{Only}
use namespace_class.Contract.Requests.Bindings.{finalizer_for-Only, settle-Only}
use namespace_class.Contract.Phases.{ReadClass, Missing}
use namespace_class.Contract.Phases.Steps.{Preparing, ReadClass-Extends, Missing-Extends}

-- A binding was deleted, or was gone when it was to be deleted.
pub data Dropped : History → Type 0 where
  deleted : {h : History} (b : NamespaceClassBinding) → Dropped (past h (delete_binding b) (ok tt))
  gone :
      {h : History} (b : NamespaceClassBinding) (e : Error)
      → is_not_found e ≡ true
      → Dropped (past h (delete_binding b) (err e))
  earlier : {h : History} (q : Request) (r : Result (Response q)) → Dropped h → Dropped (past h q r)

Dropped-Extends : {g h : History} → Extends g h → Dropped g → Dropped h
Dropped-Extends here d = d
Dropped-Extends (later q r x) d = Dropped.earlier q r (Dropped-Extends x d)

-- The last request is no status update that succeeded.
abbrev pub Unwritten : History → Type 0
Unwritten (past h (update_status b) (ok done)) = ⊥
Unwritten _ = Unit {0}

-- The class was not found, or was read.
abbrev Reads : Option NamespaceClass → History → Type 0
Reads none h = Missing h
Reads (some class) h = ReadClass class h

Reads-Extends :
    (class : Option NamespaceClass) {g h : History} → Extends g h → Reads class g → Reads class h
Reads-Extends none x missing = Missing-Extends x missing
Reads-Extends (some class) x was_read = ReadClass-Extends x was_read

-- Success: the class was read, and the last request is a status update that succeeded; or the class
-- is missing, and the binding was dropped. An error: no status was written last, or the class is
-- missing.
pub data Recorded : History → Result (Unit {0}) → Type 0 where
  written :
      {h : History} (class : NamespaceClass) (binding : NamespaceClassBinding)
      → ReadClass class h
      → Recorded (past h (update_status binding) (ok tt)) (ok tt)
  dropped : {h : History} → Missing h → Dropped h → Recorded h (ok tt)
  unwritten : {h : History} {e : Error} → Unwritten h → Recorded h (err e)
  unclean : {h : History} {e : Error} → Missing h → Recorded h (err e)

-- Every outcome is recorded.
abbrev pub Records : History → Exec (Unit {0}) → Type 0
Records h m = Safe (λ _ _. Unit {0}) Recorded h m

Preparing-Unwritten :
    (h : History) (q : Request) (r : Result (Response q)) → Preparing q → Unwritten (past h q r)
Preparing-Unwritten h (update_status b) (ok done) p = p
Preparing-Unwritten h (update_status b) (err e) p = tt
Preparing-Unwritten h _ r p = tt

prepare-Unwritten :
    {A : Type 0} (h : History) (m : Program A)
    → Only Preparing h m
    → Unwritten h
    → Safe (λ _ _. Unit {0}) (λ h' _. Unwritten h') h m
prepare-Unwritten h (ret a) only u = u
prepare-Unwritten h (call q k) only u =
    (tt, λ r. prepare-Unwritten (past h q r) (k r) (only.1 r) (Preparing-Unwritten h q r only.0))

-- After a step of preparation that succeeds.
Records-next :
    {A : Type 0} (h : History) (m : Exec A) (f : A → Exec (Unit {0}))
    → Only Preparing h m
    → Unwritten h
    → ((h' : History) (a : A) → Extends h h' → Unwritten h' → Records h' (f a))
    → Records h (bind m (next f))
Records-next h m f only u go =
    Safe-bind (λ _ _. Unit {0}) Recorded (λ h' _. Unwritten h') h m (next f)
      (prepare-Unwritten h m only u)
      λ h'. elim [ ok a ↦ λ u' x. go h' a x u' | err e ↦ λ u' x. Recorded.unwritten u' ]

write-Recorded :
    (class : NamespaceClass) (binding : NamespaceClassBinding) (m : Message) (h : History)
    → ReadClass class h
    → Records h (request_or (update_status binding) m)
write-Recorded class binding m h was_read =
    (tt, elim [ ok done ↦ Recorded.written class binding was_read | err e ↦ Recorded.unwritten tt ])

drop-Recorded :
    (binding : NamespaceClassBinding) (namespace : Namespace) (m : Message) (h : History)
    → Missing h
    → Records h (drop_binding binding m (remove_namespace_finalizer namespace))
unfolding drop_binding
drop-Recorded binding namespace m h missing =
    let finish : (h' : History)
        → Extends h h'
        → Dropped h'
        → Records h' (remove_namespace_finalizer namespace) =
      λ h' x dropped.
        Safe-post (λ _ _. Unit {0}) (λ _ _. Unit {0}) Recorded h'
          (remove_namespace_finalizer namespace)
          (Safe-any h' (remove_namespace_finalizer namespace))
          λ h''. elim [
            | ok done ↦ λ _ y.
                Recorded.dropped (Missing-Extends y (Missing-Extends x missing))
                  (Dropped-Extends y dropped)
            | err e ↦ λ _ y. Recorded.unclean (Missing-Extends y (Missing-Extends x missing))
          ] in
    (
      tt,
      elim [
        | ok done ↦ finish _ (later _ _ here) (Dropped.deleted binding)
        | err e ↦ elim (Bool-cases (is_not_found e)) [
          | inl lost ↦ rw lost (finish _ (later _ _ here) (Dropped.gone binding e lost))
          | inr failed ↦ rw failed (Recorded.unwritten tt)
        ]
      ],
    )

module _ (lib : Libraries) (policy : Policy) (namespace : Namespace) (class_name : String)
    (reading : ClassReading) (binding : NamespaceClassBinding) where
  after_missing_class-Recorded :
      (h : History) (r : Result (Unit {0}))
      → Missing h
      → Records h (after_missing_class lib policy namespace class_name reading binding r)
  unfolding after_missing_class
  after_missing_class-Recorded h (ok done) missing = drop-Recorded binding namespace _ h missing
  after_missing_class-Recorded h (err e) missing = (
    tt,
    elim [
      | ok done ↦ Recorded.unclean (Missing.earlier _ _ missing)
      | err other ↦ Recorded.unwritten tt
    ],
  )

  after_stale-Recorded :
      (class : NamespaceClass) (inventory : List ResourceRef) (h : History) (r : Result (Unit {0}))
      → ReadClass class h
      → Records h (after_stale lib policy namespace reading binding inventory r)
  unfolding after_stale update_binding_failure_status
  after_stale-Recorded class inventory h (ok done) was_read = write-Recorded class _ _ h was_read
  after_stale-Recorded class inventory h (err e) was_read = write-Recorded class _ _ h was_read

  after_apply-Recorded :
      (class : NamespaceClass) (h : History) (result : List ResourceRef × Option Error)
      → ReadClass class h
      → Records h (after_apply lib policy namespace reading binding result)
  unfolding after_apply update_binding_failure_status
  after_apply-Recorded class h (inventory, some e) was_read = write-Recorded class _ _ h was_read
  after_apply-Recorded class h (inventory, none) was_read =
      Safe-bind (λ _ _. Unit {0}) Recorded (λ _ _. Unit {0}) h
        (delete_stale_managed_resources lib namespace binding.status.inventory inventory)
        (after_stale lib policy namespace reading binding inventory) (Safe-any h _)
        (λ h' r _ x. after_stale-Recorded class inventory h' r (ReadClass-Extends x was_read))

  -- With the reading of the class.
  with_binding-Recorded :
      (class : Option NamespaceClass) (h : History)
      → reading.class ≡ class
      → Reads class h
      → Records h (with_binding lib policy namespace class_name reading binding)
  unfolding with_binding
  with_binding-Recorded none h e missing =
      rw (e, with_binding)
        (Safe-bind (λ _ _. Unit {0}) Recorded (λ _ _. Unit {0}) h
          (delete_stale_managed_resources lib namespace binding.status.inventory [])
          (after_missing_class lib policy namespace class_name reading binding) (Safe-any h _)
          (λ h' r _ x. after_missing_class-Recorded h' r (Missing-Extends x missing)))
  with_binding-Recorded (some class) h e was_read =
      rw (e, with_binding)
        (Safe-bind (λ _ _. Unit {0}) Recorded (λ _ _. Unit {0}) h
          (apply_managed_resources lib policy namespace class)
          (after_apply lib policy namespace reading binding) (Safe-any h _)
          (λ h' result _ x. after_apply-Recorded class h' result (ReadClass-Extends x was_read)))

module _ (lib : Libraries) (policy : Policy) (class_name : String) where
  -- After the class's reading.
  after_reading-Recorded :
      (namespace : Namespace) (reading : ClassReading) (h : History)
      → Reads reading.class h
      → Unwritten h
      → Records h (
          bind (finalizer_for lib policy namespace reading.class) (
            next (λ namespace'.
              bind
                (call (get_binding namespace'.name) (settle_binding namespace' class_name))
                (next (with_binding lib policy namespace' class_name reading)))))
  after_reading-Recorded namespace reading h reads u =
      Records-next h (finalizer_for lib policy namespace reading.class) _
        (finalizer_for-Only Preparing (λ _. tt) lib policy namespace reading.class h) u
        λ h' namespace' x u'.
          Records-next h'
            (call (get_binding namespace'.name) (settle_binding namespace' class_name)) _
            (settle-Only Preparing (λ _. tt) (λ _. tt) (λ _. tt) namespace' class_name h') u'
            λ h'' binding y u''.
              with_binding-Recorded lib policy namespace' class_name reading binding reading.class
                h'' refl (Reads-Extends reading.class y (Reads-Extends reading.class x reads))

  after_class-Recorded :
      (namespace : Namespace) (r : Result NamespaceClass)
      → Records (past start (get_class class_name) r) (
          bind (read_class class_name r) (
            next (λ reading. bind (finalizer_for lib policy namespace reading.class) (
              next (λ namespace'.
                bind
                  (call (get_binding namespace'.name) (settle_binding namespace' class_name))
                  (next (with_binding lib policy namespace' class_name reading)))))))
  unfolding read_class bind
  after_class-Recorded namespace (ok class) =
      after_reading-Recorded namespace (found_class class) _ (ReadClass.read class_name) tt
  after_class-Recorded namespace (err e) = elim (Bool-cases (is_not_found e)) [
    | inl missing ↦ rw missing (
        after_reading-Recorded namespace (missing_class class_name) _
          (Missing.absent class_name e missing) tt)
    | inr failed ↦ rw failed (Recorded.unwritten tt)
  ]

-- In the history of the handling of a labelled namespace alone. Where the handling succeeds: the
-- class was read, and the last request was a status update that succeeded; or the class was not
-- found, and a binding was deleted, or was not found by a request to delete it. Where it fails: the
-- last request was not a status update that succeeded, or the class was not found.
pub reconcile_binding-Recorded :
    (lib : Libraries) (policy : Policy) (namespace : Namespace) (class_name : String)
    → Records start (reconcile_binding lib policy namespace class_name)
unfolding reconcile_binding bind
reconcile_binding-Recorded lib policy namespace class_name =
    (tt, λ r. after_class-Recorded lib policy class_name namespace r)
