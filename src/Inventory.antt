-- ===== src/Inventory.antt =====
-- The identities of managed resources: `resourceRefKey`, `mergeResourceRefs` and
-- `clusterScopedResourceRefs` of internal/controller/namespace_reconciler.go, and `Key` of
-- internal/inventory/resource_ref.go.
pub mod Identity
pub mod Merge
use namespace_class.Base.{
  String, ◌<>◌, ◌==◌, Bool, Option, none, some, List, [], ◌∷◌, ◌++◌, map, if◌then◌else◌,
}
use namespace_class.Base.Chars.{trim_space, join}
use namespace_class.Base.Dict.{Dict, set, key_of, value_of}
use namespace_class.Base.Order.{sort_by}
use namespace_class.Errors.{Result, ok, err, errorf, plain}
use namespace_class.Api.{ResourceRef}

unfoldable pub resource_ref_key : ResourceRef → String
resource_ref_key ref = ref.api_version <> "/" <> ref.kind <> "/" <> ref.namespace <> "/" <> ref.name

-- `mergedByKey[resourceRefKey(ref)] = ref` for each in turn.
unfoldable pub put_refs : List ResourceRef → Dict ResourceRef → Dict ResourceRef
put_refs [] merged = merged
put_refs (ref ∷ refs) merged = put_refs refs (set (resource_ref_key ref) ref merged)

-- The entries of the map in the order of their keys, whatever order the map is walked in.
unfoldable pub merge_resource_refs : List ResourceRef → List ResourceRef → List ResourceRef
unfolding put_refs
merge_resource_refs left right = map value_of (sort_by key_of (put_refs right (put_refs left [])))

unfoldable pub cluster_scoped_resource_refs : List ResourceRef → List ResourceRef
cluster_scoped_resource_refs [] = []
cluster_scoped_resource_refs (ref ∷ refs) =
    let rest = cluster_scoped_resource_refs refs in if ref.namespace == "" then ref ∷ rest else rest

-- The key of internal/inventory, whose parts are joined by a NUL.
unfoldable pub inventory_key : ResourceRef → Result String
inventory_key ref =
    if trim_space ref.api_version == ""
    then err (errorf (plain "apiVersion is required" ∷ []))
    else if trim_space ref.kind == ""
    then err (errorf (plain "kind is required" ∷ []))
    else if trim_space ref.name == ""
    then err (errorf (plain "name is required" ∷ []))
    else ok (join "\0" (ref.api_version ∷ ref.kind ∷ ref.namespace ∷ ref.name ∷ []))
