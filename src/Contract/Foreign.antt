-- ===== src/Contract/Foreign.antt =====
-- What the runs of internal/controller/namespace_reconciler.go leave alone on a server.
use namespace_class.Base.{◌≡◌, refl, sym, ◌∙◌, String, true, false, false≢true, List, [], ◌∷◌}
use namespace_class.Base.Int.{ℤ}
use namespace_class.GroupVersionKind.{GroupVersionKind}
use namespace_class.Errors.{Error, Result, ok, err, is_not_found}
use namespace_class.Json.{Fields}
use namespace_class.Api.{Namespace}
use namespace_class.Policy.{Policy}
use namespace_class.Libraries.{Libraries, IsLawful}
use namespace_class.Resources.Objects.{is_managed_by_namespace}
use namespace_class.Reconcile.Handler.{reconcile}
use namespace_class.Cluster.{
  Request, Response, Program, ret, call, get_object, apply, delete_object, Server, run,
}
use namespace_class.Cluster.Safety.{History, start, past, Safe}
use namespace_class.Contract.{just_read, absent, owned, earlier, Deletable, Free, Duty}
use namespace_class.Contract.Handler.{reconcile-Safe}

module _ (lib : Libraries) (kind : GroupVersionKind) (namespace name : String)
    (object : Fields) where
  -- The identity of an object.
  abbrev pub Here : Fields → Type 0
  Here x =
      (lib.group_version_kind x ≡ kind)
      × (lib.get_namespace x ≡ namespace)
      × (lib.get_name x ≡ name)

  -- The request does not apply or delete an object of this identity.
  abbrev pub Elsewhere : Request → Type 0
  Elsewhere (apply manager x) = ¬ Here x
  Elsewhere (delete_object x) = ¬ Here x
  Elsewhere q = Unit {0}

  -- A server on which the object stands in some states: a read of it then returns the object, a read
  -- returns an object of the identity that was asked for, and the object still stands after each
  -- request that does not apply or delete an object of its identity.
  pub record Keeps (S : Server) (Stands : S.State → Type 0) : Type 0 where
    pub shown :
        (s : S.State) (x : Fields)
        → Stands s
        → (S.answer (get_object kind namespace name) s).0 ≡ ok x
        → x ≡ object
    pub found :
        (s : S.State) (e : Error)
        → Stands s
        → (S.answer (get_object kind namespace name) s).0 ≡ err e
        → is_not_found e ≡ false
    pub named :
        (s : S.State) (k : GroupVersionKind) (ns n : String) (x : Fields)
        → (S.answer (get_object k ns n) s).0 ≡ ok x
        → (lib.group_version_kind x ≡ k) × (lib.get_namespace x ≡ ns) × (lib.get_name x ≡ n)
    pub stays : (s : S.State) (q : Request) → Stands s → Elsewhere q → Stands (S.answer q s).1

  -- The server's answers so far, in states in which the object stood.
  abbrev Answered : (S : Server) → (S.State → Type 0) → History → Type 0
  Answered S Stands start = Unit {0}
  Answered S Stands (past h q r) =
      Answered S Stands h × (s : S.State) × Stands s × ((S.answer q s).0 ≡ r)

  -- No namespace's marks are on the object.
  abbrev pub Foreign : Type 0
  Foreign = (owner : Namespace) → is_managed_by_namespace lib object owner ≡ false

  module _ (S : Server) (Stands : S.State → Type 0) (keeps : Keeps S Stands)
      (foreign : Foreign) where
    not_marked :
        (x : Fields) (owner : Namespace)
        → x ≡ object
        → is_managed_by_namespace lib x owner ≡ true
        → ⊥
    not_marked x owner same marked = false≢true (sym (foreign owner) ∙ rw same at marked)

    Deletable-Elsewhere :
        (x : Fields) (h : History) → Deletable lib x h → Answered S Stands h → Here x → ⊥
    Deletable-Elsewhere x _ (just_read k ns n owner seen marked) (before, s, stands, answered)
          here =
        let asked = keeps.named s k ns n x answered in
        let same_kind : k ≡ kind = sym asked.0 ∙ here.0 in
        let same_namespace : ns ≡ namespace = sym asked.1 ∙ here.1 in
        let same_name : n ≡ name = sym asked.2 ∙ here.2 in
        not_marked x owner
          (keeps.shown s x stands (rw (same_kind, same_namespace, same_name) at answered)) marked

    Free-Elsewhere :
        (owner : Namespace) (h : History)
        → Free lib owner kind namespace name h
        → Answered S Stands h
        → ⊥
    Free-Elsewhere owner _ (absent e missing) (before, s, stands, answered) =
        false≢true (sym (keeps.found s e stands answered) ∙ missing)
    Free-Elsewhere owner _ (owned existing marked) (before, s, stands, answered) =
        not_marked existing owner (keeps.shown s existing stands answered) marked
    Free-Elsewhere owner _ (earlier q r f) (before, _, _, _) = Free-Elsewhere owner _ f before

    Duty-Elsewhere :
        (policy : Policy) (h : History) (q : Request)
        → Answered S Stands h
        → Duty lib policy h q
        → Elsewhere q
    Duty-Elsewhere policy h (delete_object x) a d = Deletable-Elsewhere x h d a
    Duty-Elsewhere policy h (apply manager x) a d = λ here.
        let (owner, seen, ready) = d.1 in
        Free-Elsewhere owner h (rw (here.0, here.1, here.2) at ready.free) a
    Duty-Elsewhere policy h _ a d = tt

    run-Stands :
        {A : Type 0} (policy : Policy) (Q : History → A → Type 0) (h : History) (m : Program A)
        (s : S.State)
        → Safe (Duty lib policy) Q h m
        → Answered S Stands h
        → Stands s
        → Stands (run S m s).1
    unfolding run
    run-Stands policy Q h (ret a) s safe answered stands = stands
    run-Stands policy Q h (call q k) s safe answered stands =
        let r : Result (Response q) = (S.answer q s).0 in
        run-Stands policy Q (past h q r) (k r) (S.answer q s).1 (safe.1 r)
          (answered, s, stands, refl)
          (keeps.stays s q stands (Duty-Elsewhere policy h q answered safe.0))

-- The state after passes of the handler for namespaces, one after the other.
unfoldable pub passes : (S : Server) → Libraries → Policy → ℤ → List String → S.State → S.State
unfolding run
passes S lib policy reconcile_after [] s = s
passes S lib policy reconcile_after (name ∷ names) s =
    passes S lib policy reconcile_after names
      (run S (reconcile lib policy reconcile_after name) s).1

-- On a server that answers reads truly, and on which an object stands until a request applies or
-- deletes an object of its identity (requests that write a namespace or a binding do not touch it):
-- an object that carries the marks of no namespace still stands, so that a read returns it as it was,
-- after any sequence of passes of the handler, for any namespaces, classes and policies, for lawful
-- accessors of objects.
pub passes-Stands :
    (lib : Libraries) (policy : Policy) (reconcile_after : ℤ) (kind : GroupVersionKind)
    (namespace name : String) (object : Fields) (S : Server) (Stands : S.State → Type 0)
    (names : List String) (s : S.State)
    → IsLawful lib
    → Keeps lib kind namespace name object S Stands
    → Foreign lib kind namespace name object
    → Stands s
    → Stands (passes S lib policy reconcile_after names s)
unfolding passes
passes-Stands lib policy reconcile_after kind namespace name object S Stands [] s law keeps foreign
      stands =
    stands
passes-Stands lib policy reconcile_after kind namespace name object S Stands (n ∷ names) s law keeps
      foreign stands =
    passes-Stands lib policy reconcile_after kind namespace name object S Stands names _ law keeps
      foreign
      (run-Stands lib kind namespace name object S Stands keeps foreign policy _ start
        (reconcile lib policy reconcile_after n) s (reconcile-Safe lib policy reconcile_after n law)
        tt stands)
