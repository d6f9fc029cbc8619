-- ===== src/Reconcile/Binding.antt =====
-- `reconcileBinding` of internal/controller/namespace_reconciler.go.
use namespace_class.Base.{String, ◌==◌, not, ◌||◌, Option, none, some, List, [], ◌∷◌, if◌then◌else◌}
use namespace_class.Reason.{cleanup_failed, delete_failed}
use namespace_class.Errors.{
  Error, Result, ok, err, Message, message, plain, quoted, wrap, wrap_two, is_not_found,
}
use namespace_class.Api.{Namespace, NamespaceClass, NamespaceClassBinding, ResourceRef}
use namespace_class.Policy.{Policy}
use namespace_class.Libraries.{Libraries}
use namespace_class.Inventory.{merge_resource_refs}
use namespace_class.Resources.Apply.{apply_managed_resources}
use namespace_class.Resources.Stale.{delete_stale_managed_resources}
use namespace_class.Reconcile.Cleanup.{drop_binding}
use namespace_class.Reconcile.Finalizer.{ensure_namespace_finalizer, remove_namespace_finalizer}
use namespace_class.Reconcile.Status.{
  ClassReading, class_condition, with_status, update_binding_failure_status, reason_for_apply_error,
}
use namespace_class.Cluster.{
  get_binding, create_binding, update_binding, update_status, Exec, call, bind, ◌>>=◌, ◌>>◌, pure,
  fail, request_or,
}

-- A binding that is created has no status, and the server chooses the rest of its metadata.
unfoldable pub new_binding : Namespace → String → NamespaceClassBinding
new_binding namespace class_name = record {
  name = namespace.name;
  resource_version = "";
  generation = 0;
  namespace_name = namespace.name;
  class_name = class_name;
  status = record {
    observed_namespace_uid = "";
    observed_class_generation = 0;
    inventory = [];
    conditions = [];
  };
}

-- The switch on the response to the read of the binding.
unfoldable pub settle_binding :
    Namespace → String → Result NamespaceClassBinding → Exec NamespaceClassBinding
unfolding new_binding bind
settle_binding namespace class_name (err e) =
    if is_not_found e
    then (do
      request_or (create_binding (new_binding namespace class_name))
          (plain "create namespaceclassbinding" ∷ [])
      request_or (get_binding namespace.name) (plain "get created namespaceclassbinding" ∷ []))
    else fail (wrap (plain "get namespaceclassbinding" ∷ []) e)
settle_binding namespace class_name (ok binding) =
    if not (binding.namespace_name == namespace.name) || not (binding.class_name == class_name)
    then (do
      request_or
          (update_binding
            (record binding { namespace_name = namespace.name; class_name = class_name }))
          (plain "update namespaceclassbinding spec" ∷ [])
      request_or (get_binding namespace.name) (plain "get updated namespaceclassbinding" ∷ []))
    else pure binding

module _ (lib : Libraries) (policy : Policy) where
  abbrev pub cleanup_message : String → Error → Message
  cleanup_message class_name e =
      plain "NamespaceClass "
      ∷ quoted class_name
      ∷ plain " was not found and cleanup failed: "
      ∷ message e

  abbrev cleanup_prefix : Message
  cleanup_prefix = plain "cleanup missing namespaceclass" ∷ []

  -- After the deletions for a class that is missing.
  unfoldable pub after_missing_class :
      Namespace
      → String
      → ClassReading
      → NamespaceClassBinding
      → Result (Unit {0})
      → Exec (Unit {0})
  unfolding drop_binding with_status remove_namespace_finalizer
  after_missing_class namespace class_name reading binding (ok _) =
      drop_binding binding (plain "delete namespaceclassbinding after missing class cleanup" ∷ [])
        (remove_namespace_finalizer namespace)
  after_missing_class namespace class_name reading binding (err e) =
      call
        (update_status (
          with_status lib binding namespace reading.generation binding.status.inventory
            (record reading.condition {
              reason = cleanup_failed;
              message = cleanup_message class_name e;
            })))
        λ r. elim r [
          | ok _ ↦ fail (wrap cleanup_prefix e)
          | err status_err ↦
              fail (wrap_two cleanup_prefix e (plain "update cleanup status" ∷ []) status_err)
        ]

  -- After the deletions of what the class has no more.
  unfoldable pub after_stale :
      Namespace
      → ClassReading
      → NamespaceClassBinding
      → List ResourceRef
      → Result (Unit {0})
      → Exec (Unit {0})
  unfolding with_status update_binding_failure_status
  after_stale namespace reading binding inventory (ok _) =
      request_or
        (update_status
          (with_status lib binding namespace reading.generation inventory reading.condition))
        (plain "update namespaceclassbinding status" ∷ [])
  after_stale namespace reading binding inventory (err e) =
      update_binding_failure_status lib binding namespace reading.generation delete_failed
        (message e) (merge_resource_refs binding.status.inventory inventory)

  -- After the class's resources have been applied, or some of them and an error.
  unfoldable pub after_apply :
      Namespace
      → ClassReading
      → NamespaceClassBinding
      → List ResourceRef × Option Error
      → Exec (Unit {0})
  unfolding after_stale bind
  after_apply namespace reading binding (inventory, some e) =
      update_binding_failure_status lib binding namespace reading.generation
        (reason_for_apply_error e) (message e)
        (merge_resource_refs binding.status.inventory inventory)
  after_apply namespace reading binding (inventory, none) =
      bind (delete_stale_managed_resources lib namespace binding.status.inventory inventory)
        (after_stale namespace reading binding inventory)

  -- With the class, if there is one, and the binding as the server has it.
  unfoldable pub with_binding :
      Namespace → String → ClassReading → NamespaceClassBinding → Exec (Unit {0})
  unfolding after_missing_class after_apply bind
  with_binding namespace class_name reading binding = elim reading.class [
    | none ↦
        bind (delete_stale_managed_resources lib namespace binding.status.inventory [])
          (after_missing_class namespace class_name reading binding)
    | some class ↦
        bind (apply_managed_resources lib policy namespace class)
          (after_apply namespace reading binding)
  ]

  -- The finalizer is added before anything is created for a class.
  unfoldable pub finalizer_for : Namespace → Option NamespaceClass → Exec Namespace
  unfolding ensure_namespace_finalizer
  finalizer_for namespace none = pure namespace
  finalizer_for namespace (some class) = ensure_namespace_finalizer namespace

  unfoldable pub reconcile_binding : Namespace → String → Exec (Unit {0})
  unfolding class_condition finalizer_for settle_binding with_binding bind
  reconcile_binding namespace class_name = do
    reading ← class_condition class_name
    namespace' ← finalizer_for namespace reading.class
    binding ← call (get_binding namespace'.name) (settle_binding namespace' class_name)
    with_binding namespace' class_name reading binding
