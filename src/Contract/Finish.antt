-- ===== src/Contract/Finish.antt =====
-- The desired object in its last form, as `prepareManagedResource` of
-- internal/controller/namespace_reconciler.go leaves it.
use namespace_class.Base.{String, ◌≡◌, ◌≢◌, ◌∙◌, sym, true, eq_refl, some}
use namespace_class.Base.Dict.{Dict, get, set, get-set, get-set_self}
use namespace_class.Json.{Fields}
use namespace_class.Api.{
  Namespace, managed_label_key, class_label_owner_key, namespace_label_owner_key,
  owner_namespace_uid_anno_key,
}
use namespace_class.Libraries.{Libraries, IsLawful}
use namespace_class.Resources.Objects.{is_managed_by_namespace, place, value_in, or_empty}
use namespace_class.Resources.Prepare.{finish}
use namespace_class.Cluster.{Scope, namespaced, root}

value_in-some :
    (k : String) (d : Dict String) {v : String} → get k d ≡ some v → value_in k (some d) ≡ v
value_in-some k d h = rw (h, value_in)

module _ (lib : Libraries) (law : IsLawful lib) where
  open lib use {group_version_kind, get_namespace, get_name, get_labels, get_annotations}

  pub kind-place :
      (scope : Scope) (namespace : Namespace) (o : Fields)
      → group_version_kind (place lib scope namespace o) ≡ group_version_kind o
  kind-place namespaced namespace o = law.kind-set_namespace _ o
  kind-place root namespace o = law.kind-set_namespace _ o

  pub name-place :
      (scope : Scope) (namespace : Namespace) (o : Fields)
      → get_name (place lib scope namespace o) ≡ get_name o
  name-place namespaced namespace o = law.name-set_namespace _ o
  name-place root namespace o = law.name-set_namespace _ o

  module _ (o : Fields) (namespace : Namespace) (class_name : String) where
    abbrev pub finished : Fields
    finished = (finish lib o namespace class_name).object

    pub kind-finish : group_version_kind finished ≡ group_version_kind o
    unfolding finish
    kind-finish = simp (
      law.kind-clear_managed_fields, law.kind-clear_resource_version, law.kind-set_annotations,
      law.kind-set_labels,
    )

    pub namespace-finish : get_namespace finished ≡ get_namespace o
    unfolding finish
    namespace-finish = simp (
      law.namespace-clear_managed_fields, law.namespace-clear_resource_version,
      law.namespace-set_annotations, law.namespace-set_labels,
    )

    pub name-finish : get_name finished ≡ get_name o
    unfolding finish
    name-finish = simp (
      law.name-clear_managed_fields, law.name-clear_resource_version, law.name-set_annotations,
      law.name-set_labels,
    )

    abbrev labels_set : Dict String
    labels_set = set namespace_label_owner_key namespace.name (
        set class_label_owner_key class_name
          (set managed_label_key "true" (or_empty (get_labels o))))

    abbrev labelled : Fields
    labelled = lib.set_labels labels_set o

    abbrev annotations_set : Dict String
    annotations_set =
        set owner_namespace_uid_anno_key namespace.uid (or_empty (get_annotations labelled))

    labels-finish : get_name o ≢ "" → get_labels finished ≡ some labels_set
    unfolding finish
    labels-finish named =
        law.labels-clear_managed_fields _
        ∙ law.labels-clear_resource_version _
        ∙ law.labels-set_annotations _ _
        ∙ law.labels-set_labels labels_set o named

    annotations-finish : get_name o ≢ "" → get_annotations finished ≡ some annotations_set
    unfolding finish
    annotations-finish named =
        law.annotations-clear_managed_fields _
        ∙ law.annotations-clear_resource_version _
        ∙ law.annotations-set_annotations annotations_set labelled
            (λ e. named (sym (law.name-set_labels labels_set o) ∙ e))

    marked_label : value_in managed_label_key (some labels_set) ≡ "true"
    marked_label = value_in-some _ _ (simp get-set)

    marked_annotation : value_in owner_namespace_uid_anno_key (some annotations_set) ≡ namespace.uid
    marked_annotation = value_in-some _ _ (get-set_self owner_namespace_uid_anno_key _ _)

    pub marked-finish : get_name o ≢ "" → is_managed_by_namespace lib finished namespace ≡ true
    unfolding is_managed_by_namespace
    marked-finish named =
        rw (labels-finish named, annotations-finish named, marked_label, marked_annotation)
          (rw (eq_refl namespace.uid))
