-- ===== src/Watch.antt =====
-- What makes the controller reconcile a namespace: the index, the predicates and the two fan-out
-- functions of internal/controller/namespace_reconciler.go.
pub mod FanOut
use namespace_class.Base.{
  ℕ, String, ◌==◌, Bool, true, false, not, List, [], ◌∷◌, ◌++◌, if◌then◌else◌, nat_eq,
}
use namespace_class.Base.Dict.{has, add}
use namespace_class.Errors.{Result, ok, err}
use namespace_class.Api.{NamespaceClassBinding}
use namespace_class.Cluster.{list_bindings, Program, call, ret}

-- The values of the field index `spec.className` for a binding.
unfoldable pub class_name_index : NamespaceClassBinding → List String
class_name_index binding = if binding.class_name == "" then [] else binding.class_name ∷ []

-- controller-runtime's events, with the generations of the objects for an update.
pub data Event : Type 0 where
  create delete generic : Event
  update : ℕ → ℕ → Event

-- namespaceClassUpdateFanoutPredicate
unfoldable pub namespace_class_update_fanout_predicate : Event → Bool
namespace_class_update_fanout_predicate create = true
namespace_class_update_fanout_predicate (update old new) = not (nat_eq old new)
namespace_class_update_fanout_predicate delete = true
namespace_class_update_fanout_predicate generic = false

-- namespaceClassBindingReconcilePredicate
unfoldable pub namespace_class_binding_reconcile_predicate : Event → Bool
namespace_class_binding_reconcile_predicate create = true
namespace_class_binding_reconcile_predicate (update old new) = not (nat_eq old new)
namespace_class_binding_reconcile_predicate delete = true
namespace_class_binding_reconcile_predicate generic = false

-- The namespace that a binding is for.
unfoldable pub namespace_name_of : NamespaceClassBinding → String
namespace_name_of binding =
    if binding.namespace_name == "" then binding.name else binding.namespace_name

-- The loop over the bindings, with the names that are in `seen`. The requests are the names of the
-- namespaces, in order.
unfoldable pub fan_out : List NamespaceClassBinding → List String → List String
unfolding namespace_name_of
fan_out [] seen = []
fan_out (binding ∷ bindings) seen =
    let name = namespace_name_of binding in
    let skip = fan_out bindings seen in
    let take = fan_out bindings (add name seen) in
    if name == "" then skip else if has name seen then skip else name ∷ take

-- An error of the list request is logged, and no namespace is reconciled.
unfoldable pub requests_for_namespace_class : String → Program (List String)
unfolding fan_out
requests_for_namespace_class class_name =
    call (list_bindings class_name)
      λ r. elim r [ ok bindings ↦ ret (fan_out bindings []) | err e ↦ ret [] ]

unfoldable pub requests_for_namespace_class_binding : NamespaceClassBinding → List String
unfolding namespace_name_of
requests_for_namespace_class_binding binding =
    if namespace_name_of binding == "" then [] else namespace_name_of binding ∷ []
