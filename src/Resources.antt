-- ===== src/Resources.antt =====
-- Managed resources, from the class's templates to the requests that apply and delete them:
-- internal/controller/namespace_reconciler.go from `applyManagedResources` to `addManagedMetadata`.
pub mod Objects
pub mod Prepare
pub mod Apply
pub mod Stale
