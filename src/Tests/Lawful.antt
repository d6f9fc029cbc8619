-- ===== src/Tests/Lawful.antt =====
-- The laws of the library of the tests.
use namespace_class.Base.{String, ◌==◌, ◌≡◌, refl, ◌∙◌, ap, false, some, if◌then◌else◌}
use namespace_class.Json.{Value, Fields}
use namespace_class.Libraries.{IsLawful}
use namespace_class.Tests.Objects.{
  lookup, put, lookup-put, meta, set_meta, decode-encode, text_in, strings_in, objects,
}

top-set_meta :
    (k j : String) (v : Value) (o : Fields)
    → ("metadata" == j) ≡ false
    → lookup j (set_meta k v o) ≡ lookup j o
unfolding set_meta
top-set_meta k j v o other = lookup-put "metadata" j _ o ∙ rw other refl

meta-set_meta :
    (k j : String) (v : Value) (o : Fields)
    → lookup j (meta (set_meta k v o)) ≡ (if k == j then some v else lookup j (meta o))
unfolding set_meta meta
meta-set_meta k j v o =
    rw (lookup-put "metadata" "metadata" (Value.object (put k v (meta o))) o)
      (lookup-put k j v (meta o))

kind_kept :
    (k : String) (v : Value) (o : Fields)
    → objects.group_version_kind (set_meta k v o) ≡ objects.group_version_kind o
unfolding objects
kind_kept k v o = rw (top-set_meta k "apiVersion" v o refl, top-set_meta k "kind" v o refl) refl

pub objects-IsLawful : IsLawful objects
unfolding objects
objects-IsLawful = record {
  kind-set_namespace = λ s o. kind_kept "namespace" _ o;
  name-set_namespace = λ s o. ap text_in (meta-set_meta "namespace" "name" _ o);
  kind-set_labels = λ d o. kind_kept "labels" _ o;
  namespace-set_labels = λ d o. ap text_in (meta-set_meta "labels" "namespace" _ o);
  name-set_labels = λ d o. ap text_in (meta-set_meta "labels" "name" _ o);
  labels-set_labels =
      λ d o named. ap strings_in (meta-set_meta "labels" "labels" _ o) ∙ ap some (decode-encode d);
  kind-set_annotations = λ d o. kind_kept "annotations" _ o;
  namespace-set_annotations = λ d o. ap text_in (meta-set_meta "annotations" "namespace" _ o);
  name-set_annotations = λ d o. ap text_in (meta-set_meta "annotations" "name" _ o);
  labels-set_annotations = λ d o. ap strings_in (meta-set_meta "annotations" "labels" _ o);
  annotations-set_annotations = λ d o named.
      ap strings_in (meta-set_meta "annotations" "annotations" _ o) ∙ ap some (decode-encode d);
  kind-clear_resource_version = λ o. kind_kept "resourceVersion" _ o;
  namespace-clear_resource_version =
      λ o. ap text_in (meta-set_meta "resourceVersion" "namespace" _ o);
  name-clear_resource_version = λ o. ap text_in (meta-set_meta "resourceVersion" "name" _ o);
  labels-clear_resource_version = λ o. ap strings_in (meta-set_meta "resourceVersion" "labels" _ o);
  annotations-clear_resource_version =
      λ o. ap strings_in (meta-set_meta "resourceVersion" "annotations" _ o);
  kind-clear_managed_fields = λ o. kind_kept "managedFields" _ o;
  namespace-clear_managed_fields = λ o. ap text_in (meta-set_meta "managedFields" "namespace" _ o);
  name-clear_managed_fields = λ o. ap text_in (meta-set_meta "managedFields" "name" _ o);
  labels-clear_managed_fields = λ o. ap strings_in (meta-set_meta "managedFields" "labels" _ o);
  annotations-clear_managed_fields =
      λ o. ap strings_in (meta-set_meta "managedFields" "annotations" _ o);
}
