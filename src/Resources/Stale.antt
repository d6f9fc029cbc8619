-- ===== src/Resources/Stale.antt =====
-- `deleteStaleManagedResources` and `objectFromResourceRef` of
-- internal/controller/namespace_reconciler.go.
use namespace_class.Base.{String, not, List, [], ◌∷◌, map, if◌then◌else◌}
use namespace_class.Base.Dict.{has}
use namespace_class.Errors.{Result, ok, err, Message, plain, quoted, errorf, wrap, is_not_found}
use namespace_class.Json.{Fields}
use namespace_class.Api.{Namespace, ResourceRef}
use namespace_class.Libraries.{Libraries}
use namespace_class.Inventory.{resource_ref_key}
use namespace_class.Cluster.{delete_object, call, Exec, pure, fail}
use namespace_class.Resources.Objects.{is_managed_by_namespace, read_request}

module _ (lib : Libraries) where
  open lib use {
    get_labels, set_labels, get_annotations, set_annotations, group_version_kind, gvk_empty,
    get_api_version, get_kind, get_name, get_namespace, set_namespace, clear_resource_version,
    clear_managed_fields, new_object, parse_api_version,
  }

  -- objectFromResourceRef
  unfoldable pub object_from_resource_ref : ResourceRef → Result Fields
  object_from_resource_ref ref = elim (parse_api_version ref.api_version ref.kind) [
    | ok gvk ↦ ok (new_object gvk ref.namespace ref.name)
    | err e ↦ err (wrap (plain "parse apiVersion " ∷ quoted ref.api_version ∷ []) e)
  ]

  abbrev pub about : String → ResourceRef → Message
  about what ref = plain what ∷ plain ref.kind ∷ plain "/" ∷ plain ref.name ∷ []

  -- After the delete of a stale object, with the rest of the loop.
  abbrev pub after_delete : ResourceRef → Exec (Unit {0}) → Result (Unit {0}) → Exec (Unit {0})
  after_delete ref others (ok _) = others
  after_delete ref others (err e) =
      if is_not_found e then others else fail (wrap (about "delete stale " ref) e)

  -- After the read of a stale object.
  unfoldable pub after_read :
      Namespace → ResourceRef → Exec (Unit {0}) → Result Fields → Exec (Unit {0})
  after_read namespace ref others (ok object) =
      if not (is_managed_by_namespace lib object namespace)
      then fail (
          errorf (
            plain "stale resource "
            ∷ plain ref.kind
            ∷ plain "/"
            ∷ plain ref.name
            ∷ plain " is not owned by this NamespaceClass binding"
            ∷ []))
      else call (delete_object object) (after_delete ref others)
  after_read namespace ref others (err e) =
      if is_not_found e then others else fail (wrap (about "get stale " ref) e)

  -- What is done about one stale reference.
  unfoldable pub delete_one :
      Namespace → ResourceRef → Exec (Unit {0}) → Result Fields → Exec (Unit {0})
  unfolding after_read
  delete_one namespace ref others (err e) = fail (wrap (plain "prepare stale inventory ref" ∷ []) e)
  delete_one namespace ref others (ok object) =
      call (read_request lib object) (after_read namespace ref others)

  unfoldable pub stale_loop : Namespace → List String → List ResourceRef → Exec (Unit {0})
  unfolding delete_one
  stale_loop namespace desired [] = pure tt
  stale_loop namespace desired (ref ∷ refs) =
      let others = stale_loop namespace desired refs in
      if has (resource_ref_key ref) desired
      then others
      else delete_one namespace ref others (object_from_resource_ref ref)

  unfoldable pub delete_stale_managed_resources :
      Namespace → List ResourceRef → List ResourceRef → Exec (Unit {0})
  unfolding stale_loop
  delete_stale_managed_resources namespace previous desired =
      stale_loop namespace (map resource_ref_key desired) previous
