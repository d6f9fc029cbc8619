-- ===== src/Api.antt =====
-- api/v1alpha1/types.go: the custom resources, with the fields of the Kubernetes metadata that the
-- controller reads or writes, and the constants.
use namespace_class.Base.{ℕ, String, Bool, Option, List}
use namespace_class.Base.Dict.{Dict}
use namespace_class.Errors.{Message}
use namespace_class.Reason.{Reason}
use namespace_class.Json.{Fields}

abbrev pub class_label_key : String
class_label_key = "namespaceclass.akuity.io/name"

abbrev pub namespace_finalizer : String
namespace_finalizer = "namespaceclass.akuity.io/finalizer"

abbrev pub managed_label_key : String
managed_label_key = "namespaceclass.akuity.io/managed"

abbrev pub class_label_owner_key : String
class_label_owner_key = "namespaceclass.akuity.io/class"

abbrev pub namespace_label_owner_key : String
namespace_label_owner_key = "namespaceclass.akuity.io/namespace"

abbrev pub owner_namespace_uid_anno_key : String
owner_namespace_uid_anno_key = "namespaceclass.akuity.io/owner-namespace-uid"

abbrev pub condition_ready : String
condition_ready = "Ready"

-- runtime.RawExtension: JSON text, or an object that is already decoded.
pub record RawExtension : Type 0 where
  pub raw : String
  pub object : Option Fields

pub record NamespaceClass : Type 0 where
  pub name : String
  pub generation : ℕ
  pub resources : List RawExtension

pub record ResourceRef : Type 0 where
  pub api_version : String
  pub kind : String
  pub namespace : String
  pub name : String

-- metav1.ConditionStatus, of which the controller writes two values.
pub data ConditionStatus : Type 0 where
  condition_true condition_false : ConditionStatus

-- metav1.Condition without LastTransitionTime.
pub record Condition : Type 0 where
  pub type : String
  pub status : ConditionStatus
  pub reason : Reason
  pub message : Message
  pub observed_generation : ℕ

pub record NamespaceClassBindingStatus : Type 0 where
  pub observed_namespace_uid : String
  pub observed_class_generation : ℕ
  pub inventory : List ResourceRef
  pub conditions : List Condition

pub record NamespaceClassBinding : Type 0 where
  pub name : String
  pub resource_version : String
  pub generation : ℕ
  pub namespace_name : String
  pub class_name : String
  pub status : NamespaceClassBindingStatus

-- corev1.Namespace
pub record Namespace : Type 0 where
  pub name : String
  pub uid : String
  pub resource_version : String
  pub labels : Dict String
  pub annotations : Dict String
  pub finalizers : List String
  -- whether the deletion timestamp is set
  pub deleting : Bool
