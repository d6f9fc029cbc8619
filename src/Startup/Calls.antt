-- ===== src/Startup/Calls.antt =====
-- The calls with what the code passes to them, and programs that make calls.
use namespace_class.Base.{String, Bool, List, ◌∷◌}
use namespace_class.Base.Int.{ℤ}
use namespace_class.Errors.{Result, ok, err, Message, wrap}
use namespace_class.Policy.{Policy}

-- schema.GroupVersion
pub record GroupVersion : Type 0 where
  pub group : String
  pub version : String

-- The fields of ctrl.Options that `New` sets, but for the scheme.
pub record ManagerOptions : Type 0 where
  pub metrics_bind_address : String
  pub health_probe_bind_address : String
  pub leader_election : Bool
  pub leader_election_id : String

-- The kinds that a controller is built for: the first is reconciled, the others are watched with a
-- mapping function and a predicate of the controller.
pub data WatchedKind : Type 0 where
  namespaces classes bindings : WatchedKind

-- What the controller's builder is given. The reconciler's clients are the manager's.
pub record ControllerOptions : Type 0 where
  pub name : String
  pub skip_name_validation : Bool
  pub reconciled : WatchedKind
  pub watched : List WatchedKind
  pub resource_policy : Policy
  pub reconcile_after : ℤ

pub data Call : Type 0 where
  -- clientgoscheme.AddToScheme
  add_client_go_types : Call
  -- scheme.AddKnownTypes and metav1.AddToGroupVersion, which return no error
  add_known_types : GroupVersion → List String → Call
  add_to_group_version : GroupVersion → Call
  -- ctrl.NewManager
  new_manager : ManagerOptions → Call
  -- AddHealthzCheck and AddReadyzCheck with healthz.Ping
  add_healthz_check add_readyz_check : String → Call
  -- IndexField, by the name of the field
  index_field : String → Call
  -- the builder's Complete
  build_controller : ControllerOptions → Call
  -- ctrl.GetConfigOrDie
  get_config : Call
  -- mgr.Start
  start_manager : Call

-- The calls made, the last first.
abbrev pub Log : Type 0
Log = List Call

-- What the libraries answer to a call after these calls.
abbrev pub Answers : Type 0
Answers = Log → Call → Result (Unit {0})

abbrev pub Setup : Type 0 → Type 0
Setup A = Log → Result A × Log

abbrev pub pure : {A : Type 0} → A → Setup A
pure a l = (ok a, l)

abbrev pub lift : {A : Type 0} → Result A → Setup A
lift r l = (r, l)

abbrev pub continue : {A B : Type 0} → Result A → (A → Setup B) → Setup B
continue (ok a) f l = f a l
continue (err e) f l = (err e, l)

infixl 5 ◌>>=◌ ◌>>◌
abbrev pub ◌>>=◌ : {A B : Type 0} → Setup A → (A → Setup B) → Setup B
◌>>=◌ m f l = continue (m l).0 f (m l).1

abbrev pub ◌>>◌ : {A B : Type 0} → Setup A → Setup B → Setup B
m >> n = m >>= λ _. n

module _ (answers : Answers) where
  -- One call.
  abbrev pub perform : Call → Setup (Unit {0})
  perform c l = (answers l c, c ∷ l)

  -- A call that returns no error.
  abbrev pub perform_only : Call → Setup (Unit {0})
  perform_only c l = (ok tt, c ∷ l)

abbrev pub wrapped : {A : Type 0} → Message → Result A → Result A
wrapped m (ok a) = ok a
wrapped m (err e) = err (wrap m e)

-- `if err := ...; err != nil { return fmt.Errorf("m: %w", err) }`
abbrev pub or_wrap : {A : Type 0} → Message → Setup A → Setup A
or_wrap m s l = (wrapped m (s l).0, (s l).1)
