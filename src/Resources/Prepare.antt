-- ===== src/Resources/Prepare.antt =====
-- `prepareManagedResources` and `prepareManagedResource` of
-- internal/controller/namespace_reconciler.go. The kind and the name in the text of an error are
-- those before SetNamespace, which does not change them.
use namespace_class.Base.{
  ℕ, suc, String, ◌==◌, ◌||◌, none, some, List, [], ◌∷◌, ◌++◌, if◌then◌else◌,
}
use namespace_class.Base.Dict.{Dict, get, set}
use namespace_class.Reason.{apply_failed, duplicate_resource}
use namespace_class.Errors.{Error, Result, ok, err, plain, number, wrap}
use namespace_class.Json.{Fields}
use namespace_class.Api.{Namespace, NamespaceClass, RawExtension, ResourceRef}
use namespace_class.Policy.{Policy, validate}
use namespace_class.Libraries.{Libraries}
use namespace_class.Render.{raw_to_unstructured, template_values, render_object_templates}
use namespace_class.Inventory.{resource_ref_key}
use namespace_class.Cluster.{rest_mapping, Scope, ret, call, bind, Exec, ◌>>=◌, ◌>>◌, pure, fail}
use namespace_class.Resources.Objects.{
  add_managed_metadata, ensure_can_manage, place, ref_of, condition_error, condition_message,
}

pub record PreparedManagedResource : Type 0 where
  pub object : Fields
  pub ref : ResourceRef

module _ (lib : Libraries) where
  open lib use {
    get_labels, set_labels, get_annotations, set_annotations, group_version_kind, gvk_empty,
    get_api_version, get_kind, get_name, get_namespace, set_namespace, clear_resource_version,
    clear_managed_fields, new_object, parse_api_version,
  }

  -- The tests of prepareManagedResource before the first request.
  unfoldable pub check_object : Policy → Fields → Result (Unit {0})
  check_object policy object =
      if gvk_empty (group_version_kind object) || (group_version_kind object).kind == ""
      then err (condition_message apply_failed (plain "apiVersion and kind are required" ∷ []))
      else if get_name object == ""
      then err (condition_message apply_failed (plain "metadata.name is required" ∷ []))
      else validate policy (group_version_kind object)

  -- The desired object in its last form.
  unfoldable pub finish : Fields → Namespace → String → PreparedManagedResource
  unfolding add_managed_metadata
  finish object namespace class_name =
      let done =
        clear_managed_fields
          (clear_resource_version (add_managed_metadata lib object namespace class_name)) in
      record { object = done; ref = ref_of lib done }

  abbrev mapped : Result Scope → Exec Scope
  mapped (ok scope) = pure scope
  mapped (err e) = fail (condition_error apply_failed (plain "resolve REST mapping" ∷ []) e)

  unfoldable pub prepare_managed_resource :
      Policy → Fields → Namespace → String → Exec PreparedManagedResource
  unfolding check_object ensure_can_manage finish bind
  prepare_managed_resource policy object namespace class_name = do
    ret (check_object policy object)
    scope ← call (rest_mapping (group_version_kind object)) mapped
    ensure_can_manage lib (place lib scope namespace object) namespace
    pure (finish (place lib scope namespace object) namespace class_name)

  -- `prepare KIND/NAME` in front of an error.
  abbrev pub prefixed : {A : Type 0} → Fields → Result A → Exec A
  prefixed object (ok a) = pure a
  prefixed object (err e) = fail (
      wrap (plain "prepare " ∷ plain (get_kind object) ∷ plain "/" ∷ plain (get_name object) ∷ [])
        e)

  abbrev pub conditioned_at : {A : Type 0} → String → ℕ → Result A → Result A
  conditioned_at what index (ok a) = ok a
  conditioned_at what index (err e) =
      err (condition_error apply_failed (plain what ∷ number index ∷ []) e)

  abbrev pub duplicate : String → ResourceRef → Error
  duplicate key existing = condition_message duplicate_resource (
      plain "duplicate desired resource identity "
      ∷ plain key
      ∷ plain " already defined as "
      ∷ plain existing.kind
      ∷ plain "/"
      ∷ plain existing.name
      ∷ [])

  module _ (policy : Policy) (namespace : Namespace) (class_name : String) where
    -- The body of the loop of prepareManagedResources up to the test for duplicates.
    unfoldable pub prepare_resource : ℕ → RawExtension → Exec PreparedManagedResource
    unfolding bind
    prepare_resource index raw = do
      parsed ← ret (conditioned_at "parse resource " index (raw_to_unstructured lib raw))
      object ← ret (
          conditioned_at "render resource " index
            (render_object_templates parsed (template_values namespace class_name)))
      bind (prepare_managed_resource policy object namespace class_name) (prefixed object)

    -- The loop, with its index, the identities seen and the result.
    unfoldable pub prepare_loop :
        ℕ
        → List RawExtension
        → Dict ResourceRef
        → List PreparedManagedResource
        → Exec (List PreparedManagedResource)
    unfolding bind
    prepare_loop index [] seen resources = pure resources
    prepare_loop index (raw ∷ rest) seen resources = do
      prepared ← prepare_resource index raw
      elim (get (resource_ref_key prepared.ref) seen) [
        | some existing ↦ fail (duplicate (resource_ref_key prepared.ref) existing)
        | none ↦
            prepare_loop (suc index) rest (set (resource_ref_key prepared.ref) prepared.ref seen)
              (resources ++ prepared ∷ [])
      ]

  unfoldable pub prepare_managed_resources :
      Policy → Namespace → NamespaceClass → Exec (List PreparedManagedResource)
  unfolding prepare_loop
  prepare_managed_resources policy namespace class =
      prepare_loop policy namespace class.name 0 class.resources [] []
