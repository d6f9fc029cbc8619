-- ===== src/Tests/Guests.antt =====
-- Passes of the handler on a server with an object of somebody else.
use namespace_class.Base.{
  sym, String, ◌==◌, eq_iff, arith, ◌≡◌, refl, ◌&&◌, Bool, true, false, Bool-cases, inl, inr, some,
  [], ◌∷◌, if◌then◌else◌,
}
use namespace_class.Base.Int.{pos}
use namespace_class.GroupVersionKind.{GroupVersionKind}
use namespace_class.Errors.{Error, Result, ok, err, ok-injective, library, not_found}
use namespace_class.Json.{Fields, string, object, end, field}
use namespace_class.Api.{Namespace, NamespaceClass, class_label_key}
use namespace_class.Resources.Objects.{is_managed_by_namespace}
use namespace_class.Cluster.{
  Request, Response, get_namespace, get_class, get_binding, list_bindings, get_object, rest_mapping,
  create_binding, update_binding, update_status, delete_binding, update_namespace, apply,
  delete_object, namespaced, Server,
}
use namespace_class.Contract.Foreign.{Elsewhere, Keeps, Foreign, passes, passes-Stands}
use namespace_class.Tests.Objects.{objects, lookup, meta}
use namespace_class.Tests.Lawful.{objects-IsLawful}

abbrev config_map : GroupVersionKind
config_map = record { group = ""; version = "v1"; kind = "ConfigMap" }

abbrev guest : Fields
guest = field "apiVersion" (string "v1") (
    field "kind" (string "ConfigMap") (
      field "metadata"
        (object (field "name" (string "limits") (field "namespace" (string "web") end))) end))

abbrev web : Namespace
web = record {
  name = "web";
  uid = "7f1";
  resource_version = "12";
  labels = (class_label_key, "public") ∷ [];
  annotations = [];
  finalizers = [];
  deleting = false;
}

-- A class with a resource of the guest's identity.
abbrev public : NamespaceClass
public = record {
  name = "public";
  generation = 3;
  resources = record { raw = ""; object = some guest } ∷ [];
}

same : GroupVersionKind → String → String → Bool
same k namespace name =
    k.group == ""
    && k.version == "v1"
    && k.kind == "ConfigMap"
    && namespace == "web"
    && name == "limits"

absent_error : Error
absent_error = library not_found "not found"

-- The state is whether the guest is as it was.
answer : (q : Request) → Bool → Result (Response q) × Bool
unfolding same
answer (get_namespace name) s = (ok web, s)
answer (get_class name) s = (ok public, s)
answer (get_binding name) s = (err absent_error, s)
answer (list_bindings name) s = (ok [], s)
answer (get_object k namespace name) s =
    (if s && same k namespace name then ok guest else err absent_error, s)
answer (rest_mapping k) s = (ok namespaced, s)
answer (create_binding b) s = (ok tt, s)
answer (update_binding b) s = (ok tt, s)
answer (update_status b) s = (ok tt, s)
answer (delete_binding b) s = (ok tt, s)
answer (update_namespace n) s = (ok n, s)
answer (apply manager x) s = (
  ok tt,
  if same (objects.group_version_kind x) (objects.get_namespace x) (objects.get_name x)
      then false
      else s,
)
answer (delete_object x) s = (
  ok tt,
  if same (objects.group_version_kind x) (objects.get_namespace x) (objects.get_name x)
      then false
      else s,
)

abbrev server : Server
server = record { State = Bool; answer = answer }

same-Here :
    (k : GroupVersionKind) (namespace name : String)
    → same k namespace name ≡ true
    → (k ≡ config_map) × (namespace ≡ "web") × (name ≡ "limits")
unfolding same
same-Here k namespace name h =
    let group : k.group ≡ "" = ground (arith, h, eq_iff k.group "") in
    let version : k.version ≡ "v1" = ground (arith, h, eq_iff k.version "v1") in
    let kind : k.kind ≡ "ConfigMap" = ground (arith, h, eq_iff k.kind "ConfigMap") in
    (
      λ i. record { group = group i; version = version i; kind = kind i },
      ground (arith, h, eq_iff namespace "web"),
      ground (arith, h, eq_iff name "limits"),
    )

guest-Foreign : Foreign objects config_map "web" "limits" guest
unfolding lookup meta is_managed_by_namespace objects
guest-Foreign owner = refl

-- What a read has returned.
abbrev reply : Bool → Result Fields
reply b = if b then ok guest else err absent_error

reply_cases : (s b : Bool) (x : Fields) → reply (s && b) ≡ ok x → (guest ≡ x) × (b ≡ true)
reply_cases true true x h = (ok-injective h, refl)
reply_cases true false x h = cc h
reply_cases false b x h = cc h

guest-Here :
    (k : GroupVersionKind) (namespace name : String)
    → same k namespace name ≡ true
    → (objects.group_version_kind guest ≡ k)
      × (objects.get_namespace guest ≡ namespace)
      × (objects.get_name guest ≡ name)
unfolding lookup meta objects
guest-Here k namespace name h =
    let here = same-Here k namespace name h in (sym here.0, sym here.1, sym here.2)

answer-stays :
    (s : Bool) (q : Request)
    → s ≡ true
    → Elsewhere objects config_map "web" "limits" guest q
    → (answer q s).1 ≡ true
unfolding answer
answer-stays s (apply manager x) stands elsewhere =
    elim (Bool-cases
      (same (objects.group_version_kind x) (objects.get_namespace x) (objects.get_name x))) [
        | inl e ↦ absurd (elsewhere (same-Here _ _ _ e))
        | inr e ↦ rw e stands
      ]
answer-stays s (delete_object x) stands elsewhere =
    elim (Bool-cases
      (same (objects.group_version_kind x) (objects.get_namespace x) (objects.get_name x))) [
        | inl e ↦ absurd (elsewhere (same-Here _ _ _ e))
        | inr e ↦ rw e stands
      ]
answer-stays s _ stands elsewhere = stands

guest-Keeps : Keeps objects config_map "web" "limits" guest server (λ s. s ≡ true)
unfolding answer same
guest-Keeps = record {
  shown = λ s x stands h. sym (reply_cases s (same config_map "web" "limits") x h).0;
  found = λ s e stands h. cc (rw stands at h);
  named = λ s k namespace name x h.
      let read = reply_cases s (same k namespace name) x h in
      rw (← read.0) (guest-Here k namespace name read.1);
  stays = answer-stays;
}

passes-Stands_example :
    passes server objects (record { allow = []; deny = [] }) (pos 5) ("web" ∷ "web" ∷ []) true
    ≡ true
passes-Stands_example =
    passes-Stands objects (record { allow = []; deny = [] }) (pos 5) config_map "web" "limits" guest
      server (λ s. s ≡ true) ("web" ∷ "web" ∷ []) true objects-IsLawful guest-Keeps guest-Foreign
      refl
