-- ===== src/GroupVersionKind.antt =====
-- schema.GroupVersionKind, a struct of three strings, and its text form, `Format` of
-- internal/policy/gvk_policy.go.
use namespace_class.Base.{String, ◌<>◌, ◌==◌, if◌then◌else◌}

pub record GroupVersionKind : Type 0 where
  pub group : String
  pub version : String
  pub kind : String

unfoldable pub format : GroupVersionKind → String
format gvk =
    if gvk.group == ""
    then gvk.version <> "/" <> gvk.kind
    else gvk.group <> "/" <> gvk.version <> "/" <> gvk.kind
