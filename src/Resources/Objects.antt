-- ===== src/Resources/Objects.antt =====
-- The ownership marks of managed objects: `isManagedByNamespace`, `addManagedMetadata`,
-- `ensureCanManage` and `conditionError` of internal/controller/namespace_reconciler.go.
use namespace_class.Base.{String, ◌==◌, Bool, ◌&&◌, not, Option, none, some, [], ◌∷◌, if◌then◌else◌}
use namespace_class.Base.Dict.{Dict, get, set}
use namespace_class.Reason.{Reason, apply_conflict, apply_failed}
use namespace_class.Errors.{
  Error, Result, ok, err, Message, plain, errorf, wrap, conditioned, is_not_found,
}
use namespace_class.Json.{Fields}
use namespace_class.Api.{
  Namespace, ResourceRef, managed_label_key, class_label_owner_key, namespace_label_owner_key,
  owner_namespace_uid_anno_key,
}
use namespace_class.Libraries.{Libraries}
use namespace_class.Cluster.{Request, get_object, Scope, namespaced, root, ret, call, Exec}

-- A value of a string map that may be nil; "" where the key is missing.
abbrev pub value_in : String → Option (Dict String) → String
value_in key none = ""
value_in key (some entries) = elim (get key entries) [ none ↦ "" | some value ↦ value ]

-- A nil map is replaced by an empty one before a write.
abbrev pub or_empty : Option (Dict String) → Dict String
or_empty none = []
or_empty (some entries) = entries

-- conditionError(reason, "m: %w", err)
abbrev pub condition_error : Reason → Message → Error → Error
condition_error reason m e = conditioned reason (wrap m e)

-- conditionError(reason, "m")
abbrev pub condition_message : Reason → Message → Error
condition_message reason m = conditioned reason (errorf m)

module _ (lib : Libraries) where
  open lib use {
    get_labels, set_labels, get_annotations, set_annotations, group_version_kind, gvk_empty,
    get_api_version, get_kind, get_name, get_namespace, set_namespace, clear_resource_version,
    clear_managed_fields, new_object, parse_api_version,
  }

  unfoldable pub is_managed_by_namespace : Fields → Namespace → Bool
  is_managed_by_namespace object namespace =
      value_in managed_label_key (get_labels object) == "true"
      && value_in owner_namespace_uid_anno_key (get_annotations object) == namespace.uid

  unfoldable pub add_managed_metadata : Fields → Namespace → String → Fields
  add_managed_metadata object namespace class_name =
      let labels = set namespace_label_owner_key namespace.name (
        set class_label_owner_key class_name
          (set managed_label_key "true" (or_empty (get_labels object)))) in
      let labelled = set_labels labels object in
      set_annotations
        (set owner_namespace_uid_anno_key namespace.uid (or_empty (get_annotations labelled)))
        labelled

  -- The error of ensureCanManage, by the response to its read.
  unfoldable pub can_manage : Namespace → Result Fields → Result (Unit {0})
  can_manage namespace (ok existing) =
      if not (is_managed_by_namespace existing namespace)
      then err (
          condition_message apply_conflict
            (plain "resource already exists and is not owned by this NamespaceClass binding" ∷ []))
      else ok tt
  can_manage namespace (err e) =
      if is_not_found e
      then ok tt
      else err (condition_error apply_failed (plain "get existing resource" ∷ []) e)

  -- The read of what stands under the identity of an object.
  abbrev pub read_request : Fields → Request
  read_request object =
      get_object (group_version_kind object) (get_namespace object) (get_name object)

  unfoldable pub ensure_can_manage : Fields → Namespace → Exec (Unit {0})
  unfolding can_manage
  ensure_can_manage desired namespace =
      call (read_request desired) (λ r. ret (can_manage namespace r))

  abbrev pub place : Scope → Namespace → Fields → Fields
  place namespaced namespace object = set_namespace namespace.name object
  place root namespace object = set_namespace "" object

  abbrev pub ref_of : Fields → ResourceRef
  ref_of object = record {
    api_version = get_api_version object;
    kind = get_kind object;
    namespace = get_namespace object;
    name = get_name object;
  }
