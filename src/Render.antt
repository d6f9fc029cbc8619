-- ===== src/Render.antt =====
-- How the desired objects come from the class's resources: `rawToUnstructured`, `templateValues` and
-- `renderObjectTemplates` of internal/controller/namespace_reconciler.go.
pub mod Shape
use namespace_class.Base.{String, ◌<>◌, ◌==◌, none, some, [], ◌∷◌, if◌then◌else◌}
use namespace_class.Base.Dict.{Dict, set}
use namespace_class.Errors.{Result, ok, err, errorf, plain, ◌>>=◌, wrapping}
use namespace_class.Json.{
  Value, null, boolean, number, string, array, object, Items, nil, cons, Fields, end, field,
}
use namespace_class.Api.{Namespace, RawExtension}
use namespace_class.Libraries.{Libraries}
use namespace_class.Template.{render_string}

unfoldable pub raw_to_unstructured : Libraries → RawExtension → Result Fields
raw_to_unstructured lib r =
    if r.raw == ""
    then elim r.object [
      | none ↦ err (errorf (plain "resource body is empty" ∷ []))
      | some typed ↦ wrapping (plain "convert object" ∷ []) (lib.to_unstructured typed)
    ]
    else wrapping (plain "unmarshal raw object" ∷ []) (lib.unmarshal r.raw)

-- `values[prefix + key] = value` for each entry.
unfoldable pub put_values : String → Dict String → Dict String → Dict String
put_values prefix [] values = values
put_values prefix ((key, value) ∷ entries) values =
    put_values prefix entries (set (prefix <> key) value values)

unfoldable pub template_values : Namespace → String → Dict String
unfolding put_values
template_values namespace class_name = put_values ".Namespace.Annotations." namespace.annotations (
    put_values ".Namespace.Labels." namespace.labels (
      set ".Class.Name" class_name
        (set ".Namespace.UID" namespace.uid (set ".Namespace.Name" namespace.name []))))

-- The entries of a map are rendered in the order of the list; Go's order is open, and matters only
-- for which of several errors is returned.
unfoldable mutual
  pub render_template_value : Value → Dict String → Result Value
  render_template_value (object fields) values = do
    rendered ← render_fields fields values
    ok (object rendered)
  render_template_value (array items) values = do
    rendered ← render_items items values
    ok (array rendered)
  render_template_value (string s) values = do
    rendered ← render_string s values
    ok (string rendered)
  render_template_value null values = ok null
  render_template_value (boolean b) values = ok (boolean b)
  render_template_value (number n) values = ok (number n)

  pub render_items : Items → Dict String → Result Items
  render_items nil values = ok nil
  render_items (cons item items) values = do
    next ← render_template_value item values
    rest ← render_items items values
    ok (cons next rest)

  pub render_fields : Fields → Dict String → Result Fields
  render_fields end values = ok end
  render_fields (field key item fields) values = do
    next ← render_template_value item values
    rest ← render_fields fields values
    ok (field key next rest)

abbrev content_of : Value → Result Fields
content_of (object content) = ok content
content_of _ = err (errorf (plain "rendered object must be a map" ∷ []))

unfoldable pub render_object_templates : Fields → Dict String → Result Fields
unfolding render_template_value
render_object_templates content values = do
  rendered ← render_template_value (object content) values
  content_of rendered
