-- ===== src/Reconcile.antt =====
-- The handler of internal/controller/namespace_reconciler.go, from the namespace's request to the
-- status of its binding.
pub mod Finalizer
pub mod Status
pub mod Binding
pub mod Cleanup
pub mod Handler
