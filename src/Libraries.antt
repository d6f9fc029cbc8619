-- ===== src/Libraries.antt =====
-- What the controller calls of encoding/json and of k8s.io/apimachinery without effects: the record
-- is a parameter of the model. An unstructured object is its content, a JSON object.
use namespace_class.Base.{String, Bool, ◌≡◌, ◌≢◌, Option, some, List}
use namespace_class.Base.Dict.{Dict}
use namespace_class.Errors.{Result}
use namespace_class.GroupVersionKind.{GroupVersionKind}
use namespace_class.Json.{Fields}
use namespace_class.Api.{Condition}

pub record Libraries : Type 0 where
  -- json.Unmarshal into a map
  pub unmarshal : String → Result Fields
  -- runtime.DefaultUnstructuredConverter.ToUnstructured
  pub to_unstructured : Fields → Result Fields
  -- schema.ParseGroupVersion, and WithKind
  pub parse_api_version : String → String → Result GroupVersionKind
  -- schema.GroupVersionKind.Empty
  pub gvk_empty : GroupVersionKind → Bool
  -- meta.SetStatusCondition
  pub set_status_condition : List Condition → Condition → List Condition
  -- the accessors of unstructured.Unstructured
  pub new_object : GroupVersionKind → String → String → Fields
  pub group_version_kind : Fields → GroupVersionKind
  pub get_api_version : Fields → String
  pub get_kind : Fields → String
  pub get_name : Fields → String
  pub get_namespace : Fields → String
  pub set_namespace : String → Fields → Fields
  pub get_labels : Fields → Option (Dict String)
  pub set_labels : Dict String → Fields → Fields
  pub get_annotations : Fields → Option (Dict String)
  pub set_annotations : Dict String → Fields → Fields
  pub clear_resource_version : Fields → Fields
  pub clear_managed_fields : Fields → Fields

module _ (lib : Libraries) where
  open lib use {
    group_version_kind, get_namespace, get_name, get_labels, get_annotations, set_namespace,
    set_labels, set_annotations, clear_resource_version, clear_managed_fields,
  }

  -- What the controller relies on: each setter of an unstructured object changes what it sets, and
  -- leaves the kind, the namespace, the name, the labels and the annotations otherwise as they are.
  -- Labels and annotations can be set on an object with a name, since its metadata is a map then.
  pub record IsLawful : Type 0 where
    pub kind-set_namespace :
        (s : String) (o : Fields) → group_version_kind (set_namespace s o) ≡ group_version_kind o
    pub name-set_namespace : (s : String) (o : Fields) → get_name (set_namespace s o) ≡ get_name o
    pub kind-set_labels :
        (d : Dict String) (o : Fields) → group_version_kind (set_labels d o) ≡ group_version_kind o
    pub namespace-set_labels :
        (d : Dict String) (o : Fields) → get_namespace (set_labels d o) ≡ get_namespace o
    pub name-set_labels : (d : Dict String) (o : Fields) → get_name (set_labels d o) ≡ get_name o
    pub labels-set_labels :
        (d : Dict String) (o : Fields) → get_name o ≢ "" → get_labels (set_labels d o) ≡ some d
    pub kind-set_annotations :
        (d : Dict String) (o : Fields)
        → group_version_kind (set_annotations d o) ≡ group_version_kind o
    pub namespace-set_annotations :
        (d : Dict String) (o : Fields) → get_namespace (set_annotations d o) ≡ get_namespace o
    pub name-set_annotations :
        (d : Dict String) (o : Fields) → get_name (set_annotations d o) ≡ get_name o
    pub labels-set_annotations :
        (d : Dict String) (o : Fields) → get_labels (set_annotations d o) ≡ get_labels o
    pub annotations-set_annotations :
        (d : Dict String) (o : Fields)
        → get_name o ≢ ""
        → get_annotations (set_annotations d o) ≡ some d
    pub kind-clear_resource_version :
        (o : Fields) → group_version_kind (clear_resource_version o) ≡ group_version_kind o
    pub namespace-clear_resource_version :
        (o : Fields) → get_namespace (clear_resource_version o) ≡ get_namespace o
    pub name-clear_resource_version :
        (o : Fields) → get_name (clear_resource_version o) ≡ get_name o
    pub labels-clear_resource_version :
        (o : Fields) → get_labels (clear_resource_version o) ≡ get_labels o
    pub annotations-clear_resource_version :
        (o : Fields) → get_annotations (clear_resource_version o) ≡ get_annotations o
    pub kind-clear_managed_fields :
        (o : Fields) → group_version_kind (clear_managed_fields o) ≡ group_version_kind o
    pub namespace-clear_managed_fields :
        (o : Fields) → get_namespace (clear_managed_fields o) ≡ get_namespace o
    pub name-clear_managed_fields : (o : Fields) → get_name (clear_managed_fields o) ≡ get_name o
    pub labels-clear_managed_fields :
        (o : Fields) → get_labels (clear_managed_fields o) ≡ get_labels o
    pub annotations-clear_managed_fields :
        (o : Fields) → get_annotations (clear_managed_fields o) ≡ get_annotations o
