-- ===== src/Lib.antt =====
-- A verification library for the Kubernetes controller of this repository, which keeps the
-- resources of a NamespaceClass in each namespace that is labelled with it.
--
-- The program. internal/controller/namespace_reconciler.go reconciles one namespace at a time: it
-- reads the namespace, its class and its binding, prepares the class's resources (parsing,
-- templates, policy, ownership), applies them, deletes what an earlier pass left and the class no
-- longer has, and records an inventory in the binding's status. internal/policy decides which
-- kinds may be managed, internal/template fills in the templates, api/v1alpha1 has the types, and
-- internal/manager the options.
--
-- The files.
--   Api, Reason, GroupVersionKind, Json: the types of api/v1alpha1/types.go, and the JSON values of
--     an unstructured object.
--   Errors: Go's error values, with wrapping, errors.As and the tests of apierrors.
--   Policy: internal/policy/gvk_policy.go. Template: internal/template/render.go.
--   Template.Pattern: the pattern of render.go, and the search of a backtracking engine for it, which
--     Search, Inner and Equivalence compare with Template, and Rendering and Unique lift to texts.
--     Template.Laws and Template.Missing: values and keys without one.
--   Manager: Options, DefaultOptions, withDefaults and the policy of internal/manager/manager.go.
--   Startup: cmd/namespace-class-controller/main.go (Command), New of internal/manager/manager.go
--     (Manager), SetupNamespaceReconciler (Controller) and api/v1alpha1/groupversion_info.go
--     (Scheme), as sequences of calls of the libraries (Calls); Started and Ended are about main.
--   Inventory: resourceRefKey, mergeResourceRefs and clusterScopedResourceRefs of the controller,
--     and internal/inventory/resource_ref.go.
--   Render: rawToUnstructured, templateValues and renderObjectTemplates; Render.Shape relates an
--     object to its rendering.
--   Resources: isManagedByNamespace, addManagedMetadata, ensureCanManage (Objects),
--     prepareManagedResources (Prepare), applyManagedResources (Apply) and
--     deleteStaleManagedResources (Stale).
--   Reconcile: the finalizer (Finalizer), the class's condition and the binding's status (Status),
--     the two cleanups (Cleanup), reconcileBinding (Binding) and Reconcile (Handler).
--   Watch: the index, the predicates and the fan-out functions.
--   Copies: api/v1alpha1/zz_generated.deepcopy.go. The structs of api/v1alpha1/types.go as they are
--     in memory (Memory), DeepCopyInto (Objects), DeepCopy and DeepCopyObject (Pointers), what a
--     struct holds through its slices (Meaning), and the proofs (Slices, Faithful, Separate).
--   Cluster: requests to the API server, responses, and programs that make requests; Cluster.Safety
--     is a logic of what holds of each request and of the outcome, in terms of the requests and
--     responses before.
--   Libraries: the pure functions of apimachinery and encoding/json that the controller calls, and
--     the laws of the object accessors that it relies on.
--   Contract: what the controller owes the cluster, request by request; its children follow the
--     modules of Resources and Reconcile, but for Phases (the order within a pass), Recorded (how
--     reconcileBinding ends), Requeue and Rest (when another pass is asked for) and Foreign (passes
--     on a server with objects of others).
--   Tests: concrete inputs.
--
-- The correspondence. A handler is a program that makes requests and goes on with whatever response
-- comes, success or error, so a theorem about it holds of every server and of all that other
-- clients do between two requests; Tests.Scenario runs it against a small server. A Go function that
-- returns a value and an error is a program of a Result; the error texts are kept as lists of parts.
-- A Go function of several steps is one definition for each continuation after a request, composed
-- in the order of the source. All loops are structural recursion on the list or the text that they
-- walk, so no fuel is used.
--
-- The structs of apimachinery and their copies are parameters of Copies. An array is written once,
-- when all its elements have been copied, since nothing reads it before.
--
-- Not modelled: the Kubernetes libraries themselves, the transition time of a condition, type
-- metadata and the metadata that the controller does not read, strings that are not UTF-8,
-- generations as numbers of 64 bits (they are only compared and copied), the order in which Go walks
-- a map (it decides only which of several errors is returned) and in which sort.Slice leaves equal
-- keys (prepared keys are different); the difference between reads from the client's cache and from
-- the server, since a read may have any response; how the flag package reads the command line (a
-- parameter of Startup.Command), the logger and the signal handler; charts and scripts.
pub mod Base
pub mod GroupVersionKind
pub mod Reason
pub mod Errors
pub mod Policy
pub mod Template
pub mod Json
pub mod Api
pub mod Libraries
pub mod Cluster
pub mod Inventory
pub mod Render
pub mod Resources
pub mod Reconcile
pub mod Contract
pub mod Watch
pub mod Manager
pub mod Startup
pub mod Copies
pub mod Tests
