-- ===== src/Render/Shape.antt =====
-- What `renderObjectTemplates` of internal/controller/namespace_reconciler.go makes of an object.
use namespace_class.Base.{◌≡◌, refl, sym, ◌∙◌, String, Bool, ◌↔◌, inl, inr}
use namespace_class.Base.Dict.{Dict}
use namespace_class.Errors.{ok, >>=-eq-ok, ok-injective, Result-cases}
use namespace_class.Json.{
  Value, null, boolean, number, string, array, object, Items, nil, cons, Fields, end, field,
}
use namespace_class.Template.{render_string}
use namespace_class.Render.{
  render_template_value, render_items, render_fields, render_object_templates,
}

-- The same keys and structure, with each string rendered.
module _ (values : Dict String) where
  mutual
    pub data Renders : Value → Value → Type 0 where
      of_string : {s t : String} → render_string s values ≡ ok t → Renders (string s) (string t)
      of_array : {l k : Items} → RendersItems l k → Renders (array l) (array k)
      of_object : {f g : Fields} → RendersFields f g → Renders (object f) (object g)
      of_null : Renders null null
      of_boolean : {b : Bool} → Renders (boolean b) (boolean b)
      of_number : {n : String} → Renders (number n) (number n)

    pub data RendersItems : Items → Items → Type 0 where
      no_items : RendersItems nil nil
      items :
          {x y : Value} {l k : Items}
          → Renders x y
          → RendersItems l k
          → RendersItems (cons x l) (cons y k)

    pub data RendersFields : Fields → Fields → Type 0 where
      no_fields : RendersFields end end
      fields :
          {key : String} {x y : Value} {f g : Fields}
          → Renders x y
          → RendersFields f g
          → RendersFields (field key x f) (field key y g)

  mutual
    unfolding render_template_value

    value-Renders : (x y : Value) → render_template_value x values ≡ ok y → Renders x y
    value-Renders (string s) y h =
        let (t, same, rendered) = >>=-eq-ok (render_string s values) _ h in
        rw (sym (ok-injective same)) (Renders.of_string rendered)
    value-Renders (array l) y h =
        let (k, same, rendered) = >>=-eq-ok (render_items l values) _ h in
        rw (sym (ok-injective same)) (Renders.of_array (items-Renders l k rendered))
    value-Renders (object f) y h =
        let (g, same, rendered) = >>=-eq-ok (render_fields f values) _ h in
        rw (sym (ok-injective same)) (Renders.of_object (fields-Renders f g rendered))
    value-Renders null y h = rw (sym (ok-injective h)) Renders.of_null
    value-Renders (boolean b) y h = rw (sym (ok-injective h)) Renders.of_boolean
    value-Renders (number n) y h = rw (sym (ok-injective h)) Renders.of_number

    items-Renders : (l k : Items) → render_items l values ≡ ok k → RendersItems l k
    items-Renders nil k h = rw (sym (ok-injective h)) RendersItems.no_items
    items-Renders (cons x l) k h =
        let (y, others, rendered) = >>=-eq-ok (render_template_value x values) _ h in
        let (rest, same, rendered_rest) = >>=-eq-ok (render_items l values) _ others in
        rw (sym (ok-injective same))
          (RendersItems.items (value-Renders x y rendered) (items-Renders l rest rendered_rest))

    fields-Renders : (f g : Fields) → render_fields f values ≡ ok g → RendersFields f g
    fields-Renders end g h = rw (sym (ok-injective h)) RendersFields.no_fields
    fields-Renders (field key x f) g h =
        let (y, others, rendered) = >>=-eq-ok (render_template_value x values) _ h in
        let (rest, same, rendered_rest) = >>=-eq-ok (render_fields f values) _ others in
        rw (sym (ok-injective same))
          (RendersFields.fields (value-Renders x y rendered) (fields-Renders f rest rendered_rest))

  mutual
    unfolding render_template_value

    Renders-value : {x y : Value} → Renders x y → render_template_value x values ≡ ok y
    Renders-value (of_string rendered) = rw rendered refl
    Renders-value (of_array d) = rw (RendersItems-items d) refl
    Renders-value (of_object d) = rw (RendersFields-fields d) refl
    Renders-value of_null = refl
    Renders-value of_boolean = refl
    Renders-value of_number = refl

    RendersItems-items : {l k : Items} → RendersItems l k → render_items l values ≡ ok k
    RendersItems-items no_items = refl
    RendersItems-items (items d e) = rw (Renders-value d, RendersItems-items e) refl

    RendersFields-fields : {f g : Fields} → RendersFields f g → render_fields f values ≡ ok g
    RendersFields-fields no_fields = refl
    RendersFields-fields (fields d e) = rw (Renders-value d, RendersFields-fields e) refl

  object_templates : (f : Fields) → render_object_templates f values ≡ render_fields f values
  unfolding render_object_templates
  object_templates f = elim (Result-cases (render_fields f values)) [
    | inl (g, e) ↦ rw e refl
    | inr (error, e) ↦ rw e refl
  ]

-- The rendering of an object succeeds with an object if and only if this has the same structure and
-- keys, the same numbers, Booleans and nulls, and in the place of each string, at any depth, what the
-- string's own rendering succeeds with.
pub render_object_templates_iff :
    (content rendered : Fields) (values : Dict String)
    → (render_object_templates content values ≡ ok rendered) ↔ RendersFields values content rendered
render_object_templates_iff content rendered values = (
  λ h. fields-Renders values content rendered (sym (object_templates values content) ∙ h),
  λ d. object_templates values content ∙ RendersFields-fields values d,
)
