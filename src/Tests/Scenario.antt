-- ===== src/Tests/Scenario.antt =====
-- Passes of the handler against a small server: a namespace is labelled, loses its label, and is
-- deleted.
use namespace_class.Errors.{other}
use namespace_class.Base.{
  String, ◌==◌, ◌≡◌, refl, true, false, Option, none, some, List, [], ◌∷◌, ◌++◌, map, if◌then◌else◌,
}
use namespace_class.Base.Int.{pos, not_positive}
use namespace_class.Base.Chars.{split, trim_space}
use namespace_class.Base.Dict.{get, set, has, add}
use namespace_class.Base.Order.{sort_by, insert_sorted}
use namespace_class.GroupVersionKind.{format}
use namespace_class.Errors.{Error, Result, ok, err, library, not_found, is_not_found}
use namespace_class.Json.{Fields, string, object, end, field}
use namespace_class.Api.{
  Namespace, NamespaceClass, NamespaceClassBinding, ResourceRef, class_label_key,
  namespace_finalizer,
}
use namespace_class.Policy.{Policy, validate}
use namespace_class.Inventory.{resource_ref_key, cluster_scoped_resource_refs}
use namespace_class.Cluster.{
  Request, Response, get_namespace, get_class, get_binding, list_bindings, get_object, rest_mapping,
  create_binding, update_binding, update_status, delete_binding, update_namespace, apply,
  delete_object, namespaced, Server, run, bind,
}
use namespace_class.Reconcile.Binding.{reconcile_binding}
use namespace_class.Resources.Apply.{apply_managed_resources}
use namespace_class.Resources.Prepare.{prepare_resource, prepare_managed_resource}
use namespace_class.Render.{raw_to_unstructured, render_object_templates, template_values}
use namespace_class.Template.{render_string, capture}
use namespace_class.Resources.Stale.{delete_stale_managed_resources, object_from_resource_ref}
use namespace_class.Resources.Objects.{is_managed_by_namespace}
use namespace_class.Reconcile.Cleanup.{
  cleanup_binding_for_namespace, cleanup_binding_for_deleting_namespace,
}
use namespace_class.Reconcile.Handler.{Requeue, reconcile}
use namespace_class.Tests.Objects.{objects, lookup, put, meta, set_meta, encode, decode}

-- One namespace, a class that is there or not, a binding and the objects.
record World : Type 0 where
  namespace : Namespace
  class : Option NamespaceClass
  binding : Option NamespaceClassBinding
  stored : List Fields

missing : Error
missing = library not_found "not found"

abbrev found : {A : Type 0} → Option A → Result A
found none = err (library not_found "not found")
found (some a) = ok a

abbrev name_of : Fields → String
name_of o = objects.get_name o

unfoldable find : String → List Fields → Option Fields
find name [] = none
find name (o ∷ l) = if name_of o == name then some o else find name l

unfoldable remove : String → List Fields → List Fields
remove name [] = []
remove name (o ∷ l) = let rest = remove name l in if name_of o == name then rest else o ∷ rest

unfoldable answer : (q : Request) → World → Result (Response q) × World
unfolding find remove
answer (get_namespace name) w = (ok w.namespace, w)
answer (get_class name) w = (found w.class, w)
answer (get_binding name) w = (found w.binding, w)
answer (list_bindings name) w = (ok [], w)
answer (get_object kind namespace name) w = (found (find name w.stored), w)
answer (rest_mapping kind) w = (ok namespaced, w)
answer (create_binding b) w = (ok tt, record w { binding = some b })
answer (update_binding b) w = (ok tt, record w { binding = some b })
answer (update_status b) w = (ok tt, record w { binding = some b })
answer (delete_binding b) w = (ok tt, record w { binding = none })
answer (update_namespace n) w = (ok n, record w { namespace = n })
answer (apply manager o) w = (ok tt, record w { stored = remove (name_of o) w.stored ++ o ∷ [] })
answer (delete_object o) w = (ok tt, record w { stored = remove (name_of o) w.stored })

abbrev server : Server
server = record { State = World; answer = answer }

abbrev policy : Policy
policy = record { allow = []; deny = "rbac.authorization.k8s.io/v1/ClusterRoleBinding" ∷ [] }

abbrev web : Namespace
web = record {
  name = "web";
  uid = "7f1";
  resource_version = "12";
  labels = (class_label_key, "public") ∷ [];
  annotations = [];
  finalizers = [];
  deleting = false;
}

abbrev config : Fields
config = field "apiVersion" (string "v1") (
    field "kind" (string "ConfigMap")
      (field "metadata" (object (field "name" (string "{{ .Namespace.Name }}-limits") end)) end))

abbrev labelled : World
labelled = record {
  namespace = web;
  class = some (record {
    name = "public";
    generation = 3;
    resources = record { raw = ""; object = some config } ∷ [];
  });
  binding = none;
  stored = [];
}

unfoldable pass : World → Result Requeue × World
unfolding run bind reconcile answer get set has add put lookup meta set_meta encode decode split
    trim_space format sort_by insert_sorted not_positive is_not_found resource_ref_key objects
    reconcile_binding apply_managed_resources prepare_resource raw_to_unstructured
    render_object_templates render_string template_values capture prepare_managed_resource validate
    delete_stale_managed_resources is_managed_by_namespace object_from_resource_ref
    cleanup_binding_for_namespace cleanup_binding_for_deleting_namespace
    cluster_scoped_resource_refs
pass w = run server (reconcile objects policy (pos 5) "web") w

abbrev inventory_of : World → List ResourceRef
inventory_of w = elim w.binding [ none ↦ [] | some b ↦ b.status.inventory ]

abbrev first : World
first = (pass labelled).1

-- The first pass creates the object, with the template filled in, and records it; the namespace has
-- the finalizer, and the pass asks for another in time.
first_creates :
    (inventory_of first
      ≡ record { api_version = "v1"; kind = "ConfigMap"; namespace = "web"; name = "web-limits" }
        ∷ [])
    × (map name_of first.stored ≡ "web-limits" ∷ [])
    × (first.namespace.finalizers ≡ namespace_finalizer ∷ [])
    × ((pass labelled).0 ≡ ok (some (pos 5)))
unfolding pass
first_creates = (refl, refl, refl, refl)

-- A second pass changes nothing.
second_agrees : pass first ≡ (ok (some (pos 5)), first)
unfolding pass
second_agrees = refl

abbrev unlabelled : World
unlabelled = record first { namespace = record first.namespace { labels = [] } }

-- Without the label everything is taken back.
unlabelled_clears : pass unlabelled ≡ (
  ok none,
  record unlabelled { namespace = record web { labels = [] }; binding = none; stored = [] },
)
unfolding pass
unlabelled_clears = refl

abbrev leaving : World
leaving = record first { namespace = record first.namespace { deleting = true } }

-- A namespace that is deleted keeps its objects for the server to delete.
leaving_frees :
    pass leaving
    ≡ (ok none, record leaving { namespace = record web { deleting = true }; binding = none })
unfolding pass
leaving_frees = refl

-- The server refuses to write a status.
unfoldable refusing : (q : Request) → World → Result (Response q) × World
unfolding answer
refusing (update_status b) w = (err (library other "the server is down"), w)
refusing q w = answer q w

-- The first pass while no status can be written.
unfoldable interrupted : World
unfolding pass refusing
interrupted =
    (run (record { State = World; answer = refusing }) (reconcile objects policy (pos 5) "web")
      labelled).1

-- The class then loses its resources.
abbrev reduced : World
reduced = record interrupted {
  class = some (record { name = "public"; generation = 4; resources = [] });
}

-- The object of the interrupted pass stays, and no inventory has it.
reduced_keeps :
    ((pass reduced).0 ≡ ok (some (pos 5)))
    × (map name_of (pass reduced).1.stored ≡ "web-limits" ∷ [])
    × (inventory_of (pass reduced).1 ≡ [])
unfolding interrupted
reduced_keeps = (refl, refl, refl)
