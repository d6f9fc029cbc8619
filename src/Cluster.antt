-- ===== src/Cluster.antt =====
-- The Kubernetes API as the controller sees it: requests with their responses. A handler is a
-- program that makes requests and goes on with the responses, whatever they are.
pub mod Safety
use namespace_class.Base.{String, Bool, Option, List}
use namespace_class.Errors.{Result, ok, err, Error, Message, wrap}
use namespace_class.GroupVersionKind.{GroupVersionKind}
use namespace_class.Json.{Fields}
use namespace_class.Api.{Namespace, NamespaceClass, NamespaceClassBinding}

-- meta.RESTScope
pub data Scope : Type 0 where
  namespaced root : Scope

pub data Request : Type 0 where
  get_namespace : String → Request
  get_class : String → Request
  get_binding : String → Request
  -- the bindings whose class has this name
  list_bindings : String → Request
  -- the kind, the namespace and the name
  get_object : GroupVersionKind → String → String → Request
  rest_mapping : GroupVersionKind → Request
  create_binding : NamespaceClassBinding → Request
  update_binding : NamespaceClassBinding → Request
  update_status : NamespaceClassBinding → Request
  delete_binding : NamespaceClassBinding → Request
  -- the response is the namespace that the server stored
  update_namespace : Namespace → Request
  -- the field manager, and the object
  apply : String → Fields → Request
  delete_object : Fields → Request

abbrev pub Response : Request → Type 0
Response (get_namespace _) = Namespace
Response (get_class _) = NamespaceClass
Response (get_binding _) = NamespaceClassBinding
Response (list_bindings _) = List NamespaceClassBinding
Response (get_object _ _ _) = Fields
Response (rest_mapping _) = Scope
Response (update_namespace _) = Namespace
Response _ = Unit {0}

pub data Program (A : Type 0) : Type 0 where
  ret : A → Program A
  call : (q : Request) → (Result (Response q) → Program A) → Program A

unfoldable pub bind : {A B : Type 0} → Program A → (A → Program B) → Program B
bind (ret a) f = f a
bind (call q k) f = call q (λ r. bind (k r) f)

-- A Go function that returns a value and an error.
abbrev pub Exec : Type 0 → Type 0
Exec A = Program (Result A)

abbrev pub next : {A B : Type 0} → (A → Exec B) → Result A → Exec B
next f (ok a) = f a
next f (err e) = ret (err e)

infixl 5 ◌>>=◌ ◌>>◌
abbrev pub ◌>>=◌ : {A B : Type 0} → Exec A → (A → Exec B) → Exec B
m >>= f = bind m (next f)

abbrev pub ◌>>◌ : {A B : Type 0} → Exec A → Exec B → Exec B
m >> n = m >>= λ _. n

abbrev pub request : (q : Request) → Exec (Response q)
request q = call q ret

abbrev pub pure : {A : Type 0} → A → Exec A
pure a = ret (ok a)

abbrev pub fail : {A : Type 0} → Error → Exec A
fail e = ret (err e)

abbrev pub lift : {A : Type 0} → Result A → Exec A
lift r = ret r

-- The request, with its error wrapped: `if err := ...; err != nil { return fmt.Errorf(...) }`.
abbrev pub wrapped : {A : Type 0} → Message → Result A → Exec A
wrapped m (ok a) = ret (ok a)
wrapped m (err e) = ret (err (wrap m e))

abbrev pub request_or : (q : Request) → Message → Exec (Response q)
request_or q m = call q (wrapped m)

-- A server answers each request and changes its state.
pub record Server : Type 1 where
  pub State : Type 0
  pub answer : (q : Request) → State → Result (Response q) × State

module _ (S : Server) where
  unfoldable pub run : {A : Type 0} → Program A → S.State → A × S.State
  run (ret a) s = (a, s)
  run (call q k) s = let (r, s') = S.answer q s in run (k r) s'
