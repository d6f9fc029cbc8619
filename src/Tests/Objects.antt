-- ===== src/Tests/Objects.antt =====
-- A concrete library for the tests: objects with the accessors that the controller uses, over JSON
-- objects with a "metadata" object.
use namespace_class.Base.{
  String, ◌==◌, eq_iff, arith, ◌≡◌, refl, ◌&&◌, Option, none, some, List, [], ◌∷◌, if◌then◌else◌,
}
use namespace_class.Base.Chars.{split}
use namespace_class.Base.Dict.{Dict}
use namespace_class.GroupVersionKind.{GroupVersionKind}
use namespace_class.Errors.{ok, err, errorf, plain}
use namespace_class.Json.{Value, Fields, string, object, null, end, field}
use namespace_class.Api.{Condition}
use namespace_class.Libraries.{Libraries}

unfoldable pub lookup : String → Fields → Option Value
lookup k end = none
lookup k (field j v rest) = if j == k then some v else lookup k rest

unfoldable pub put : String → Value → Fields → Fields
put k v end = field k v end
put k v (field j w rest) = if j == k then field k v rest else field j w (put k v rest)

pub lookup-put :
    (k j : String) (v : Value) (o : Fields)
    → lookup j (put k v o) ≡ (if k == j then some v else lookup j o)
unfolding lookup put
lookup-put k j v end = refl
lookup-put k j v (field i w o) =
    ground (arith, eq_iff k j, eq_iff i k, eq_iff i j, lookup-put k j v o)

abbrev pub fields_in : Option Value → Fields
fields_in (some (object fields)) = fields
fields_in _ = end

abbrev pub text_in : Option Value → String
text_in (some (string s)) = s
text_in _ = ""

unfoldable pub meta : Fields → Fields
unfolding lookup
meta o = fields_in (lookup "metadata" o)

unfoldable pub set_meta : String → Value → Fields → Fields
unfolding put meta
set_meta k v o = put "metadata" (object (put k v (meta o))) o

-- A map of strings as a JSON object, and back.
unfoldable pub encode : Dict String → Fields
encode [] = end
encode ((k, v) ∷ d) = field k (string v) (encode d)

unfoldable pub decode : Fields → Dict String
decode end = []
decode (field k v rest) = (k, text_in (some v)) ∷ decode rest

pub decode-encode : (d : Dict String) → decode (encode d) ≡ d
unfolding decode encode
decode-encode [] = refl
decode-encode ((k, v) ∷ d) = rw (decode-encode d) refl

abbrev pub strings_in : Option Value → Option (Dict String)
strings_in (some (object fields)) = some (decode fields)
strings_in _ = none

abbrev pub kind_of : List String → String → GroupVersionKind
kind_of (group ∷ version ∷ []) kind = record { group = group; version = version; kind = kind }
kind_of (version ∷ _) kind = record { group = ""; version = version; kind = kind }
kind_of [] kind = record { group = ""; version = ""; kind = kind }

abbrev pub put_condition : List Condition → Condition → List Condition
put_condition [] c = c ∷ []
put_condition (d ∷ conditions) c =
    let rest = put_condition conditions c in if d.type == c.type then c ∷ conditions else d ∷ rest

unfoldable pub objects : Libraries
unfolding lookup put meta set_meta encode decode split
objects = record {
  unmarshal = λ raw. if raw == "{}" then ok end else err (errorf (plain "not supported" ∷ []));
  to_unstructured = ok;
  parse_api_version = λ api_version kind. ok (kind_of (split b'/' api_version) kind);
  gvk_empty = λ gvk. gvk.group == "" && gvk.version == "" && gvk.kind == "";
  set_status_condition = put_condition;
  new_object = λ gvk namespace name. set_meta "name" (string name) (
      set_meta "namespace" (string namespace)
        (field "apiVersion" (string gvk.version) (field "kind" (string gvk.kind) end)));
  group_version_kind =
      λ o. kind_of (split b'/' (text_in (lookup "apiVersion" o))) (text_in (lookup "kind" o));
  get_api_version = λ o. text_in (lookup "apiVersion" o);
  get_kind = λ o. text_in (lookup "kind" o);
  get_name = λ o. text_in (lookup "name" (meta o));
  get_namespace = λ o. text_in (lookup "namespace" (meta o));
  set_namespace = λ s. set_meta "namespace" (string s);
  get_labels = λ o. strings_in (lookup "labels" (meta o));
  set_labels = λ d. set_meta "labels" (object (encode d));
  get_annotations = λ o. strings_in (lookup "annotations" (meta o));
  set_annotations = λ d. set_meta "annotations" (object (encode d));
  clear_resource_version = set_meta "resourceVersion" (string "");
  clear_managed_fields = set_meta "managedFields" null;
}
