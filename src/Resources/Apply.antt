-- ===== src/Resources/Apply.antt =====
-- `applyManagedResources` of internal/controller/namespace_reconciler.go.
use namespace_class.Base.{String, Option, none, some, List, [], ◌∷◌, ◌++◌, if◌then◌else◌}
use namespace_class.Base.Order.{sort_by}
use namespace_class.Reason.{apply_conflict, apply_failed}
use namespace_class.Errors.{Error, Result, ok, err, plain, is_conflict}
use namespace_class.Json.{Fields}
use namespace_class.Api.{Namespace, NamespaceClass, ResourceRef}
use namespace_class.Policy.{Policy}
use namespace_class.Libraries.{Libraries}
use namespace_class.Inventory.{resource_ref_key}
use namespace_class.Cluster.{apply, Program, ret, call, bind}
use namespace_class.Resources.Objects.{condition_error}
use namespace_class.Resources.Prepare.{PreparedManagedResource, prepare_managed_resources}

abbrev pub field_manager : String
field_manager = "namespace-class-controller"

module _ (lib : Libraries) where
  open lib use {
    get_labels, set_labels, get_annotations, set_annotations, group_version_kind, gvk_empty,
    get_api_version, get_kind, get_name, get_namespace, set_namespace, clear_resource_version,
    clear_managed_fields, new_object, parse_api_version,
  }

  abbrev pub apply_error : Fields → Error → Error
  apply_error object e =
      condition_error (if is_conflict e then apply_conflict else apply_failed)
        (plain "apply " ∷ plain (get_kind object) ∷ plain "/" ∷ plain (get_name object) ∷ []) e

  -- The loop that applies the prepared resources. It returns the references applied so far beside
  -- an error, and in the order of their keys if there is none.
  unfoldable pub apply_loop :
      List PreparedManagedResource → List ResourceRef → Program (List ResourceRef × Option Error)
  apply_loop [] refs = ret (sort_by resource_ref_key refs, none)
  apply_loop (resource ∷ rest) refs = call (apply field_manager resource.object) λ r. elim r [
    | ok _ ↦ apply_loop rest (refs ++ resource.ref ∷ [])
    | err e ↦ ret (refs, some (apply_error resource.object e))
  ]

  abbrev pub apply_prepared :
      Result (List PreparedManagedResource) → Program (List ResourceRef × Option Error)
  apply_prepared (ok resources) = apply_loop resources []
  apply_prepared (err e) = ret ([], some e)

  unfoldable pub apply_managed_resources :
      Policy → Namespace → NamespaceClass → Program (List ResourceRef × Option Error)
  unfolding prepare_managed_resources apply_loop bind
  apply_managed_resources policy namespace class =
      bind (prepare_managed_resources lib policy namespace class) apply_prepared
