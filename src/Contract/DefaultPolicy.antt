-- ===== src/Contract/DefaultPolicy.antt =====
-- The policy of internal/manager/manager.go in the runs of
-- internal/controller/namespace_reconciler.go.
use namespace_class.Base.{String, ◌≡◌, ◌≢◌, sym, ◌∙◌, ap}
use namespace_class.Base.Int.{ℤ}
use namespace_class.Errors.{ok}
use namespace_class.Policy.{Policy, validate}
use namespace_class.Libraries.{Libraries, IsLawful}
use namespace_class.Manager.{Options, resource_policy}
use namespace_class.Manager.Defaults.{cluster_role_binding, resource_policy_denied}
use namespace_class.Reconcile.Handler.{reconcile}
use namespace_class.Cluster.{Request, apply}
use namespace_class.Cluster.Safety.{History, start, Safe-weaken}
use namespace_class.Contract.{Duty}
use namespace_class.Contract.Handler.{reconcile-Safe}
use namespace_class.Contract.Guarantees.{Always}

module _ (lib : Libraries) where
  abbrev pub AppliesNoBinding : History → Request → Type 0
  AppliesNoBinding h (apply manager object) = lib.group_version_kind object ≢ cluster_role_binding
  AppliesNoBinding h _ = Unit {0}

  no_binding :
      (options : Options) (policy : Policy) (h : History) (q : Request)
      → options.policy_deny_gvks ≡ ""
      → resource_policy options ≡ ok policy
      → Duty lib policy h q
      → AppliesNoBinding h q
  no_binding options policy h (apply manager object) empty built d = λ same. cc (
      sym d.1.2.permitted
      ∙ ap (validate policy) same
      ∙ resource_policy_denied options policy empty built)
  no_binding options policy h _ empty built d = tt

  -- For lawful accessors of objects, and options whose deny list is left empty: a handler with the
  -- policy that the manager builds of the options never applies an object of the group
  -- rbac.authorization.k8s.io, the version v1 and the kind ClusterRoleBinding, whatever the allow
  -- list, the class and the server are. Other versions of this kind are not covered.
  pub reconcile-AppliesNoBinding :
      (options : Options) (policy : Policy) (reconcile_after : ℤ) (name : String)
      → IsLawful lib
      → options.policy_deny_gvks ≡ ""
      → resource_policy options ≡ ok policy
      → Always AppliesNoBinding (reconcile lib policy reconcile_after name)
  reconcile-AppliesNoBinding options policy reconcile_after name law empty built =
      Safe-weaken (Duty lib policy) AppliesNoBinding (λ _ _. Unit {0}) start
        (reconcile lib policy reconcile_after name)
        (reconcile-Safe lib policy reconcile_after name law)
        (λ h q. no_binding options policy h q empty built)
