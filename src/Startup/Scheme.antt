-- ===== src/Startup/Scheme.antt =====
-- api/v1alpha1/groupversion_info.go
use namespace_class.Base.{String, List, [], ◌∷◌}
use namespace_class.Startup.Calls.{
  GroupVersion, Setup, Answers, perform_only, ◌>>◌, pure, add_known_types, add_to_group_version,
}

abbrev pub group_version : GroupVersion
group_version = record { group = "namespaceclass.akuity.io"; version = "v1alpha1" }

abbrev pub known_types : List String
known_types =
    "NamespaceClass" ∷ "NamespaceClassList" ∷ "NamespaceClassBinding" ∷ "NamespaceClassBindingList"
    ∷ []

-- AddToScheme calls the one function of the scheme builder.
unfoldable pub add_to_scheme : Answers → Setup (Unit {0})
add_to_scheme answers = do
  perform_only answers (add_known_types group_version known_types)
  perform_only answers (add_to_group_version group_version)
  pure tt
