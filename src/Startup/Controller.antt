-- ===== src/Startup/Controller.antt =====
-- `SetupNamespaceReconciler` of internal/controller/namespace_reconciler.go.
use namespace_class.Base.{String, true, [], ◌∷◌}
use namespace_class.Base.Int.{ℤ}
use namespace_class.Errors.{plain}
use namespace_class.Policy.{Policy}
use namespace_class.Startup.Calls.{
  ControllerOptions, namespaces, classes, bindings, Setup, Answers, perform, or_wrap, ◌>>◌,
  index_field, build_controller,
}

abbrev pub binding_class_name_field : String
binding_class_name_field = "spec.className"

abbrev pub controller_options : Policy → ℤ → ControllerOptions
controller_options resource_policy reconcile_after = record {
  name = "namespaceclass-binding";
  skip_name_validation = true;
  reconciled = namespaces;
  watched = classes ∷ bindings ∷ [];
  resource_policy = resource_policy;
  reconcile_after = reconcile_after;
}

unfoldable pub setup_namespace_reconciler : Answers → Policy → ℤ → Setup (Unit {0})
setup_namespace_reconciler answers resource_policy reconcile_after = do
  or_wrap (plain "index namespaceclassbindings by class name" ∷ [])
      (perform answers (index_field binding_class_name_field))
  perform answers (build_controller (controller_options resource_policy reconcile_after))
