-- ===== src/Policy.antt =====
-- internal/policy/gvk_policy.go: which kinds of resources may be managed.
pub mod RoundTrip
pub mod Verdict
use namespace_class.Base.{
  String, ◌==◌, List, [], ◌∷◌, Bool, true, false, ◌&&◌, ◌||◌, not, if◌then◌else◌,
}
use namespace_class.Base.Chars.{trim_space, split}
use namespace_class.Base.Dict.{has, add}
use namespace_class.GroupVersionKind.{GroupVersionKind, format}
use namespace_class.Errors.{Error, denied, errorf, plain, quoted, Result, ok, err, ◌>>=◌, wrapping}

pub record Policy : Type 0 where
  pub allow : List String
  pub deny : List String

abbrev pub default_denied_cluster_role_binding : String
default_denied_cluster_role_binding = "rbac.authorization.k8s.io/v1/ClusterRoleBinding"

abbrev pub default_deny_gvks_csv : String
default_deny_gvks_csv = default_denied_cluster_role_binding

abbrev pub invalid : String → String → Error
invalid value expected = errorf (plain "invalid GVK " ∷ quoted value ∷ plain expected ∷ [])

-- The switch of `ParseGVK` on the parts between the slashes.
unfoldable pub gvk_of_parts : String → List String → Result GroupVersionKind
gvk_of_parts value (a ∷ b ∷ []) =
    if a == "" || b == ""
    then err (invalid value ", expected apiVersion/kind")
    else ok (record { group = ""; version = a; kind = b })
gvk_of_parts value (a ∷ b ∷ c ∷ []) =
    if a == "" || b == "" || c == ""
    then err (invalid value ", expected group/version/kind")
    else ok (record { group = a; version = b; kind = c })
gvk_of_parts value _ = err (invalid value ", expected apiVersion/kind or group/version/kind")

unfoldable pub parse_gvk : String → Result GroupVersionKind
unfolding gvk_of_parts
parse_gvk value = gvk_of_parts value (split b'/' (trim_space value))

-- The loop of `parseCSV`.
unfoldable pub parse_items : List String → List String → Result (List String)
parse_items [] gvks = ok gvks
parse_items (raw ∷ rest) gvks =
    let skip = parse_items rest gvks in
    if trim_space raw == ""
    then skip
    else do gvk ← parse_gvk (trim_space raw); parse_items rest (add (format gvk) gvks)

unfoldable pub parse_csv : String → Result (List String)
unfolding parse_items
parse_csv value = if trim_space value == "" then ok [] else parse_items (split b',' value) []

unfoldable pub from_csv : String → String → Result Policy
from_csv allow_csv deny_csv = do
  allow ← wrapping (plain "parse allow GVKs" ∷ []) (parse_csv allow_csv)
  deny ← wrapping (plain "parse deny GVKs" ∷ []) (parse_csv deny_csv)
  ok (record { allow = allow; deny = deny })

abbrev pub is_empty {ℓ} : {A : Type ℓ} → List A → Bool
is_empty [] = true
is_empty (x ∷ l) = false

unfoldable pub validate : Policy → GroupVersionKind → Result (Unit {0})
validate p gvk =
    if has (format gvk) p.deny
    then err (denied gvk "matched denylist")
    else if not (is_empty p.allow) && not (has (format gvk) p.allow)
    then err (denied gvk "not present in allowlist")
    else ok tt
