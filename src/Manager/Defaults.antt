-- ===== src/Manager/Defaults.antt =====
-- What the defaults of internal/manager/manager.go mean for the policy of internal/policy.
use namespace_class.Base.{◌≡◌, refl, String, ◌∙◌}
use namespace_class.GroupVersionKind.{GroupVersionKind, format}
use namespace_class.Errors.{ok, err, denied}
use namespace_class.Policy.{default_deny_gvks_csv, Policy, validate}
use namespace_class.Policy.Verdict.{listed, verdict, wrapping-eq-ok, validate-from_csv}
use namespace_class.Base.Chars.{split, trim_space}
use namespace_class.Base.Dict.{has}
use namespace_class.Manager.{Options, resource_policy}

-- ClusterRoleBinding of rbac.authorization.k8s.io/v1
abbrev pub cluster_role_binding : GroupVersionKind
cluster_role_binding = record {
  group = "rbac.authorization.k8s.io";
  version = "v1";
  kind = "ClusterRoleBinding";
}

default_denies :
    (allow_csv : String)
    → verdict allow_csv default_deny_gvks_csv cluster_role_binding
      ≡ err (denied cluster_role_binding "matched denylist")
unfolding verdict listed split trim_space format has
default_denies allow_csv = refl

-- Where the deny option is left empty, the policy that the manager is built with denies
-- rbac.authorization.k8s.io/v1/ClusterRoleBinding by its deny list, whatever the other options are:
-- also where the allow option lists this kind.
pub resource_policy_denied :
    (options : Options) (p : Policy)
    → options.policy_deny_gvks ≡ ""
    → resource_policy options ≡ ok p
    → validate p cluster_role_binding ≡ err (denied cluster_role_binding "matched denylist")
unfolding resource_policy
resource_policy_denied options p empty built =
    validate-from_csv options.policy_allow_gvks default_deny_gvks_csv p cluster_role_binding
      (let parsed = wrapping-eq-ok _ _ built in rw empty at parsed)
    ∙ default_denies options.policy_allow_gvks
