-- ===== src/Tests/Policies.antt =====
-- Policies, options and templates at concrete inputs.
use namespace_class.Base.{String, ◌<>◌, ◌≡◌, refl, ◌≢◌, inr, true, [], ◌∷◌}
use namespace_class.Base.Chars.{is_space, split, trim_space}
use namespace_class.Base.Dict.{Dict, get, has, add}
use namespace_class.GroupVersionKind.{GroupVersionKind, format}
use namespace_class.Errors.{ok, err, denied, ◌>>=◌}
use namespace_class.Policy.{Policy, from_csv, parse_csv, validate, parse_gvk}
use namespace_class.Policy.RoundTrip.{IsPart, parse_gvk-format, format-parse_gvk}
use namespace_class.Policy.Verdict.{verdict, validate-from_csv}
use namespace_class.Template.{render_string}
use namespace_class.Template.Missing.{render_string_missing}
use namespace_class.Template.Laws.{IsBody, render_string-append, render_string-Lacks}
use namespace_class.Tests.Texts.{avoids, avoids-Lacks, solid, solid-IsSolid}
use namespace_class.Manager.{Options, default_options, resource_policy}
use namespace_class.Manager.Defaults.{cluster_role_binding, resource_policy_denied}

abbrev secret : GroupVersionKind
secret = record { group = ""; version = "v1"; kind = "Secret" }

abbrev deployment : GroupVersionKind
deployment = record { group = "apps"; version = "v1"; kind = "Deployment" }

part : (s : String) → s ≢ "" → avoids b'/' s ≡ true → solid s ≡ true → IsPart s
part s filled no_slash is_solid = record {
  filled = filled;
  no_slash = avoids-Lacks b'/' s no_slash;
  solid = solid-IsSolid s is_solid;
}

parse_gvk-format_example : parse_gvk (format deployment) ≡ ok deployment
unfolding solid is_space
parse_gvk-format_example = parse_gvk-format deployment (record {
  group = inr (part "apps" (λ e. cc e) refl refl);
  version = part "v1" (λ e. cc e) refl refl;
  kind = part "Deployment" (λ e. cc e) refl refl;
})

format-parse_gvk_example : format secret ≡ trim_space " v1/Secret "
unfolding parse_gvk split trim_space
format-parse_gvk_example = format-parse_gvk " v1/Secret " secret refl

abbrev only_secrets : Policy
only_secrets = record { allow = "v1/Secret" ∷ []; deny = "v1/Pod" ∷ [] }

validate-from_csv_example :
    validate only_secrets deployment ≡ verdict "v1/Secret" "v1/Pod, ,v1/Pod" deployment
unfolding from_csv parse_csv parse_gvk split trim_space format add has
validate-from_csv_example =
    validate-from_csv "v1/Secret" "v1/Pod, ,v1/Pod" only_secrets deployment refl

abbrev options : Options
options = record default_options { policy_allow_gvks = "v1/Secret"; policy_deny_gvks = "" }

abbrev by_default : Policy
by_default = record {
  allow = "v1/Secret" ∷ [];
  deny = "rbac.authorization.k8s.io/v1/ClusterRoleBinding" ∷ [];
}

resource_policy_denied_example :
    validate by_default cluster_role_binding ≡ err (denied cluster_role_binding "matched denylist")
unfolding default_options resource_policy from_csv parse_csv parse_gvk split trim_space format add
    has
resource_policy_denied_example = resource_policy_denied options by_default refl refl

abbrev values : Dict String
values = (".Namespace.Name", "web") ∷ []

body : (s : String) → s ≢ "" → avoids b'{' s ≡ true → avoids b'}' s ≡ true → IsBody s
body s filled no_open no_close = record {
  filled = filled;
  no_open = avoids-Lacks b'{' s no_open;
  no_close = avoids-Lacks b'}' s no_close;
}

render_string-append_example :
    render_string ("a-" <> "{{" <> " .Namespace.Name " <> "}}" <> "-b") values
    ≡ (do tail ← render_string "-b" values; ok ("a-" <> "web" <> tail))
unfolding trim_space get
render_string-append_example =
    render_string-append values "a-" " .Namespace.Name " "-b" "web" (avoids-Lacks b'{' "a-" refl)
      (body " .Namespace.Name " (λ e. cc e) refl refl) refl

render_string_missing_example :
    render_string ("{{a-{{ b }}" <> "{{" <> ".Namespace.UID" <> "}}" <> "") values ≢ ok "a-"
unfolding trim_space get
render_string_missing_example =
    render_string_missing values "{{a-{{ b }}" ".Namespace.UID" "" "a-"
      (body ".Namespace.UID" (λ e. cc e) refl refl) refl

render_string-Lacks_example : render_string "plain }} text" values ≡ ok "plain }} text"
render_string-Lacks_example =
    render_string-Lacks values "plain }} text" (avoids-Lacks b'{' "plain }} text" refl)
