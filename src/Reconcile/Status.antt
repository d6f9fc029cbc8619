-- ===== src/Reconcile/Status.antt =====
-- The condition and the status of a binding: `classCondition`, `updateBindingFailureStatus` and
-- `reasonForApplyError` of internal/controller/namespace_reconciler.go.
use namespace_class.Base.{ℕ, String, Option, none, some, List, [], ◌∷◌, if◌then◌else◌}
use namespace_class.Reason.{
  Reason, binding_recorded, class_not_found, gvk_denied, apply_conflict, apply_failed,
}
use namespace_class.Errors.{
  Error, Result, ok, err, Message, plain, quoted, wrap, as_denied, as_conditioned, is_not_found,
  is_conflict,
}
use namespace_class.Api.{
  Namespace, NamespaceClass, NamespaceClassBinding, ResourceRef, Condition, condition_true,
  condition_false, condition_ready,
}
use namespace_class.Libraries.{Libraries}
use namespace_class.Cluster.{get_class, update_status, Exec, call, pure, fail, request_or}

abbrev pub not_found_message : String → Message
not_found_message class_name =
    plain "NamespaceClass " ∷ quoted class_name ∷ plain " was not found" ∷ []

-- The class, if there is one, its generation and the condition to record.
pub record ClassReading : Type 0 where
  pub class : Option NamespaceClass
  pub generation : ℕ
  pub condition : Condition

unfoldable pub missing_class : String → ClassReading
missing_class class_name = record {
  class = none;
  generation = 0;
  condition = record {
    type = condition_ready;
    status = condition_false;
    reason = class_not_found;
    message = not_found_message class_name;
    observed_generation = 0;
  };
}

unfoldable pub found_class : NamespaceClass → ClassReading
found_class class = record {
  class = some class;
  generation = class.generation;
  condition = record {
    type = condition_ready;
    status = condition_true;
    reason = binding_recorded;
    message = plain "NamespaceClass binding recorded" ∷ [];
    observed_generation = 0;
  };
}

unfoldable pub read_class : String → Result NamespaceClass → Exec ClassReading
unfolding missing_class found_class
read_class class_name (ok class) = pure (found_class class)
read_class class_name (err e) =
    if is_not_found e
    then pure (missing_class class_name)
    else fail (wrap (plain "read namespaceclass " ∷ quoted class_name ∷ []) e)

unfoldable pub class_condition : String → Exec ClassReading
unfolding read_class
class_condition class_name = call (get_class class_name) (read_class class_name)

unfoldable pub reason_for_apply_error : Error → Reason
reason_for_apply_error e = elim (as_denied e) [
  | some _ ↦ gvk_denied
  | none ↦ elim (as_conditioned e) [
    | some reason ↦ reason
    | none ↦ if is_conflict e then apply_conflict else apply_failed
  ]
]

module _ (lib : Libraries) where
  -- The binding with a new status, its conditions updated by one condition.
  unfoldable pub with_status :
      NamespaceClassBinding → Namespace → ℕ → List ResourceRef → Condition → NamespaceClassBinding
  with_status binding namespace class_generation inventory condition = record binding {
    status = record {
      observed_namespace_uid = namespace.uid;
      observed_class_generation = class_generation;
      inventory = inventory;
      conditions =
          lib.set_status_condition binding.status.conditions
            (record condition { observed_generation = binding.generation });
    };
  }

  abbrev pub failure : Reason → Message → Condition
  failure reason m = record {
    type = condition_ready;
    status = condition_false;
    reason = reason;
    message = m;
    observed_generation = 0;
  }

  unfoldable pub update_binding_failure_status :
      NamespaceClassBinding → Namespace → ℕ → Reason → Message → List ResourceRef → Exec (Unit {0})
  unfolding with_status
  update_binding_failure_status binding namespace class_generation reason m inventory =
      request_or
        (update_status
          (with_status binding namespace class_generation inventory (failure reason m)))
        (plain "update namespaceclassbinding failure status" ∷ [])
