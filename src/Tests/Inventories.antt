-- ===== src/Tests/Inventories.antt =====
-- Inventories and the fan-out at concrete inputs.
use namespace_class.Base.Dict.{AllDifferent}
use namespace_class.Base.Dict.{add}
use namespace_class.Base.{String, ◌≡◌, refl, List, [], ◌∷◌}
use namespace_class.Base.Chars.{trim_space, join}
use namespace_class.Base.Dict.{has}
use namespace_class.Base.Order.Laws.{IsSorted}
use namespace_class.Errors.{or_else}
use namespace_class.Api.{ResourceRef, NamespaceClassBinding}
use namespace_class.Inventory.{resource_ref_key, inventory_key, merge_resource_refs}
use namespace_class.Inventory.Merge.{
  find_ref, last_ref, find_ref-merge_resource_refs, merge_resource_refs-IsSorted,
}
use namespace_class.Inventory.Identity.{
  IsPlain, IsText, resource_ref_key_injective, inventory_key_injective,
}
use namespace_class.Watch.{fan_out}
use namespace_class.Watch.FanOut.{one_by_one, fan_out_once}
use namespace_class.Tests.Texts.{avoids-Lacks}

abbrev config : ResourceRef
config = record { api_version = "v1"; kind = "ConfigMap"; namespace = "web"; name = "limits" }

abbrev role : ResourceRef
role = record {
  api_version = "rbac.authorization.k8s.io/v1";
  kind = "ClusterRole";
  namespace = "";
  name = "viewer";
}

config-IsPlain : IsPlain config
config-IsPlain = record {
  kind = avoids-Lacks b'/' "ConfigMap" refl;
  namespace = avoids-Lacks b'/' "web" refl;
  name = avoids-Lacks b'/' "limits" refl;
}

config-IsText : IsText config
config-IsText = record {
  api_version = avoids-Lacks 0 "v1" refl;
  kind = avoids-Lacks 0 "ConfigMap" refl;
  namespace = avoids-Lacks 0 "web" refl;
  name = avoids-Lacks 0 "limits" refl;
}

find_ref-merge_resource_refs_example :
    find_ref "v1/ConfigMap/web/limits" (merge_resource_refs (role ∷ config ∷ []) (role ∷ []))
    ≡ or_else
        (last_ref "v1/ConfigMap/web/limits" (role ∷ []))
        (last_ref "v1/ConfigMap/web/limits" (role ∷ config ∷ []))
find_ref-merge_resource_refs_example =
    find_ref-merge_resource_refs "v1/ConfigMap/web/limits" (role ∷ config ∷ []) (role ∷ [])

merge_resource_refs-IsSorted_example :
    IsSorted resource_ref_key (merge_resource_refs (config ∷ role ∷ []) (config ∷ []))
merge_resource_refs-IsSorted_example =
    merge_resource_refs-IsSorted (config ∷ role ∷ []) (config ∷ [])

resource_ref_key_injective_example : config ≡ config
resource_ref_key_injective_example =
    resource_ref_key_injective config config config-IsPlain config-IsPlain refl

inventory_key_injective_example : config ≡ config
unfolding inventory_key trim_space join
inventory_key_injective_example =
    inventory_key_injective config config "v1\0ConfigMap\0web\0limits" config-IsText config-IsText
      refl refl

abbrev binding_for : String → String → NamespaceClassBinding
binding_for name namespace = record {
  name = name;
  resource_version = "";
  generation = 1;
  namespace_name = namespace;
  class_name = "public";
  status = record {
    observed_namespace_uid = "";
    observed_class_generation = 0;
    inventory = [];
    conditions = [];
  };
}

abbrev bindings : List NamespaceClassBinding
bindings =
    binding_for "web" ""
    ∷ binding_for "other" "web"
    ∷ binding_for "" ""
    ∷ binding_for "db" "db"
    ∷ []

fan_out_once_example :
    AllDifferent (fan_out bindings [])
    × ((k : String) → has k (fan_out bindings []) ≡ has k (one_by_one bindings))
fan_out_once_example = fan_out_once bindings

-- A run of the fan-out.
fan_out_test : fan_out bindings [] ≡ "web" ∷ "db" ∷ []
unfolding fan_out has add
fan_out_test = refl
