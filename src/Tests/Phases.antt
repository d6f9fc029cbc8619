-- ===== src/Tests/Phases.antt =====
-- The order and the passes of the handlers at a concrete library, policy and namespace.
use namespace_class.Base.{refl, false, [], ◌∷◌}
use namespace_class.Base.Int.{ℤ, pos}
use namespace_class.Base.Chars.{split, trim_space}
use namespace_class.Base.Dict.{add, has}
use namespace_class.Api.{Namespace, class_label_key, namespace_finalizer}
use namespace_class.GroupVersionKind.{format}
use namespace_class.Policy.{Policy, from_csv, parse_csv, parse_gvk}
use namespace_class.Manager.{Options, default_options, resource_policy}
use namespace_class.Reconcile.Handler.{reconcile}
use namespace_class.Reconcile.Binding.{reconcile_binding}
use namespace_class.Cluster.Safety.{start, Safe}
use namespace_class.Contract.Guarantees.{Always}
use namespace_class.Contract.Outcomes.{Ensures}
use namespace_class.Contract.DefaultPolicy.{AppliesNoBinding, reconcile-AppliesNoBinding}
use namespace_class.Contract.Requeue.{Timely, reconcile-Timely}
use namespace_class.Contract.Phases.{InPhase}
use namespace_class.Contract.Phases.Order.{reconcile_binding-InPhase}
use namespace_class.Tests.Objects.{objects}
use namespace_class.Tests.Lawful.{objects-IsLawful}

abbrev secrets_allowed : Options
secrets_allowed = record default_options { policy_allow_gvks = "v1/Secret"; policy_deny_gvks = "" }

abbrev no_bindings : Policy
no_bindings = record {
  allow = "v1/Secret" ∷ [];
  deny = "rbac.authorization.k8s.io/v1/ClusterRoleBinding" ∷ [];
}

abbrev half_minute : ℤ
half_minute = pos 30000000000

abbrev staying : Namespace
staying = record {
  name = "web";
  uid = "7f1";
  resource_version = "12";
  labels = (class_label_key, "public") ∷ [];
  annotations = [];
  finalizers = "kubernetes" ∷ namespace_finalizer ∷ [];
  deleting = false;
}

reconcile-AppliesNoBinding_example :
    Always (AppliesNoBinding objects) (reconcile objects no_bindings half_minute "web")
unfolding default_options resource_policy from_csv parse_csv parse_gvk split trim_space format add
    has
reconcile-AppliesNoBinding_example =
    reconcile-AppliesNoBinding objects secrets_allowed no_bindings half_minute "web"
      objects-IsLawful refl refl

reconcile-Timely_example :
    Ensures (Timely half_minute) start (reconcile objects no_bindings half_minute "web")
reconcile-Timely_example = reconcile-Timely objects no_bindings half_minute "web"

reconcile_binding-InPhase_example :
    Safe
      (InPhase objects)
      (λ _ _. Unit {0})
      start
      (reconcile_binding objects no_bindings staying "public")
reconcile_binding-InPhase_example = reconcile_binding-InPhase objects no_bindings staying "public"
