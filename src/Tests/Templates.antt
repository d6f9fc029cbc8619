-- ===== src/Tests/Templates.antt =====
-- The search for tokens at concrete templates.
use namespace_class.Base.Chars.{trim_space}
use namespace_class.Base.Dict.{get}
use namespace_class.Template.Rendering.{replaced, copied, finished}
use namespace_class.Template.Unique.{Rendering-render_string}
use namespace_class.Errors.{ok}
use namespace_class.Json.{Fields, string, number, end, field}
use namespace_class.Render.Shape.{RendersFields, render_object_templates_iff}
use namespace_class.Render.{render_object_templates}
use namespace_class.Base.{◌↔◌, String, ◌≡◌, refl, some, ◌∷◌, []}
use namespace_class.Base.Dict.{Dict}
use namespace_class.Template.{Rendered, is_blank, is_brace, result, render_string}
use namespace_class.Template.Pattern.{match, match_star, match_group, token_pattern}
use namespace_class.Template.Equivalence.{Agree, token-match}
use namespace_class.Template.Rendering.{Rendering, render_string-Rendering}

-- The group ends before the white space.
match_run : match token_pattern "{{  a b }}-{{c}}" ≡ some ("a b", "-{{c}}")
unfolding match_star match_group is_blank is_brace
match_run = refl

-- Of white space alone the group takes the last character.
match_blank : match token_pattern "{{ \t}}" ≡ some ("\t", "")
unfolding match_star match_group is_blank is_brace
match_blank = refl

abbrev names : Dict String
names = (".Namespace.Name", "web") ∷ []

token-match_example : Agree "{{ .Namespace.Name }}-quota"
token-match_example = token-match "{{ .Namespace.Name }}-quota"

render_string-Rendering_example :
    (r : Rendered) × Rendering names "{{ .Namespace.Name }}-quota {{x}}" r
    × (render_string "{{ .Namespace.Name }}-quota {{x}}" names ≡ result r)
render_string-Rendering_example = render_string-Rendering names "{{ .Namespace.Name }}-quota {{x}}"

abbrev labels : Fields
labels = field "name" (string "{{ .Namespace.Name }}-quota") (field "count" (number "3") end)

abbrev rendered_labels : Fields
rendered_labels = field "name" (string "web-quota") (field "count" (number "3") end)

render_object_templates_iff_example :
    (render_object_templates labels names ≡ ok rendered_labels)
    ↔ RendersFields names labels rendered_labels
render_object_templates_iff_example = render_object_templates_iff labels rendered_labels names

shouted : Rendering names "{{ .Namespace.Name }}!" (record { output = "web!"; missing = [] })
unfolding match_star match_group is_blank is_brace get trim_space
shouted = replaced ".Namespace.Name" "!" refl refl (copied refl finished)

Rendering-render_string_example :
    render_string "{{ .Namespace.Name }}!" names ≡ result (record { output = "web!"; missing = [] })
Rendering-render_string_example = Rendering-render_string names shouted
