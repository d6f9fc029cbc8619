-- ===== src/Reason.antt =====
-- The reasons of the condition `Ready`, constants of api/v1alpha1/types.go.
pub data Reason : Type 0 where
  binding_recorded class_not_found cleanup_failed gvk_denied : Reason
  apply_conflict apply_failed delete_failed duplicate_resource : Reason
