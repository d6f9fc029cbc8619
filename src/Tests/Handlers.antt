-- ===== src/Tests/Handlers.antt =====
-- The handlers at a concrete library, policy and namespace.
use namespace_class.Base.{inl}
use namespace_class.Reconcile.Handler.{handle_namespace}
use namespace_class.Cluster.Safety.{Safe}
use namespace_class.Contract.TakingAway.{handle_namespace-Quiet}
use namespace_class.Contract.Quiet.{Quiet}
use namespace_class.Contract.ClassRead.{ReadsClassFirst, reconcile_binding-ReadsClassFirst}
use namespace_class.Base.{false}
use namespace_class.Base.{none, some}
use namespace_class.Json.{Fields}
use namespace_class.Api.{NamespaceClass}
use namespace_class.Resources.Prepare.{prepare_managed_resources}
use namespace_class.Reconcile.Binding.{reconcile_binding}
use namespace_class.Contract.Distinct.{Distinct, prepare_managed_resources-Distinct}
use namespace_class.Contract.Recorded.{Records, reconcile_binding-Recorded}
use namespace_class.Base.{refl, true, [], ◌∷◌}
use namespace_class.Base.Int.{ℤ, pos}
use namespace_class.Errors.{ok}
use namespace_class.Api.{Namespace, ResourceRef, class_label_key, namespace_finalizer}
use namespace_class.Policy.{Policy}
use namespace_class.Reconcile.Handler.{reconcile}
use namespace_class.Resources.Stale.{delete_stale_managed_resources}
use namespace_class.Cluster.{get_namespace}
use namespace_class.Cluster.Safety.{History, start, past}
use namespace_class.Contract.{Seen}
use namespace_class.Contract.Guarantees.{
  Always, DeletesOwned, reconcile-DeletesOwned, AppliesPermitted, reconcile-AppliesPermitted,
  AppliesGuarded, reconcile-AppliesGuarded, DropsEmptied, reconcile-DropsEmptied, RecordsInventory,
  reconcile-RecordsInventory,
}
use namespace_class.Contract.Outcomes.{Ensures, Cleared, delete_stale_managed_resources-Cleared}
use namespace_class.Tests.Objects.{objects}
use namespace_class.Tests.Lawful.{objects-IsLawful}

abbrev policy : Policy
policy = record { allow = []; deny = "rbac.authorization.k8s.io/v1/ClusterRoleBinding" ∷ [] }

abbrev minute : ℤ
minute = pos 60000000000

reconcile-DeletesOwned_example :
    Always (DeletesOwned objects policy minute) (reconcile objects policy minute "web")
reconcile-DeletesOwned_example = reconcile-DeletesOwned objects policy minute "web" objects-IsLawful

reconcile-AppliesPermitted_example :
    Always (AppliesPermitted objects policy minute) (reconcile objects policy minute "web")
reconcile-AppliesPermitted_example =
    reconcile-AppliesPermitted objects policy minute "web" objects-IsLawful

reconcile-AppliesGuarded_example :
    Always (AppliesGuarded objects policy minute) (reconcile objects policy minute "web")
reconcile-AppliesGuarded_example =
    reconcile-AppliesGuarded objects policy minute "web" objects-IsLawful

reconcile-DropsEmptied_example :
    Always (DropsEmptied objects policy minute) (reconcile objects policy minute "web")
reconcile-DropsEmptied_example = reconcile-DropsEmptied objects policy minute "web" objects-IsLawful

reconcile-RecordsInventory_example :
    Always (RecordsInventory objects policy minute) (reconcile objects policy minute "web")
reconcile-RecordsInventory_example =
    reconcile-RecordsInventory objects policy minute "web" objects-IsLawful

abbrev leaving : Namespace
leaving = record {
  name = "web";
  uid = "7f1";
  resource_version = "12";
  labels = (class_label_key, "public") ∷ [];
  annotations = [];
  finalizers = "kubernetes" ∷ namespace_finalizer ∷ [];
  deleting = true;
}

-- The history in which the namespace has been read.
abbrev shown : History
shown = past start (get_namespace "web") (ok leaving)

abbrev role : ResourceRef
role = record {
  api_version = "rbac.authorization.k8s.io/v1";
  kind = "ClusterRole";
  namespace = "";
  name = "viewer";
}

delete_stale_managed_resources-Cleared_example :
    Ensures
      (Cleared objects policy (role ∷ []) [])
      shown
      (delete_stale_managed_resources objects leaving (role ∷ []) [])
delete_stale_managed_resources-Cleared_example =
    delete_stale_managed_resources-Cleared objects policy leaving (role ∷ []) [] shown
      (Seen.read "web")

abbrev living : Namespace
living = record leaving { deleting = false; finalizers = [] }

reconcile_binding-Recorded_example :
    Records start (reconcile_binding objects policy living "public")
reconcile_binding-Recorded_example = reconcile_binding-Recorded objects policy living "public"

-- A class of two resources.
abbrev public : NamespaceClass
public = record {
  name = "public";
  generation = 2;
  resources =
      record { raw = "{}"; object = none } ∷ record { raw = ""; object = some Fields.end } ∷ [];
}

prepare_managed_resources-Distinct_example :
    Ensures (Distinct 2) start (prepare_managed_resources objects policy living public)
prepare_managed_resources-Distinct_example =
    prepare_managed_resources-Distinct objects policy living public start

reconcile_binding-ReadsClassFirst_example :
    Safe
      (ReadsClassFirst "public")
      (λ _ _. Unit {0})
      start
      (reconcile_binding objects policy living "public")
reconcile_binding-ReadsClassFirst_example =
    reconcile_binding-ReadsClassFirst objects policy living "public"

handle_namespace-Quiet_example : Quiet shown (handle_namespace objects policy minute leaving)
handle_namespace-Quiet_example =
    handle_namespace-Quiet objects policy minute leaving shown (inl refl)
