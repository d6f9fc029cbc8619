-- ===== src/Startup.antt =====
-- How the process starts: the calls that cmd/namespace-class-controller/main.go,
-- internal/manager/manager.go, api/v1alpha1/groupversion_info.go and `SetupNamespaceReconciler` of
-- internal/controller/namespace_reconciler.go make of the Kubernetes libraries, in their order. What
-- a call answers is a parameter, and may depend on the calls before it.
pub mod Scheme
pub mod Controller
pub mod Manager
pub mod Command
pub mod Calls
pub mod Started
pub mod Ended
