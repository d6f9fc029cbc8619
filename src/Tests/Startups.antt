-- ===== src/Tests/Startups.antt =====
-- The construction of the manager at concrete flags and answers.
use namespace_class.Base.{◌≡◌, refl, Bool, Option, some, [], ◌∷◌}
use namespace_class.Base.Chars.{split, trim_space}
use namespace_class.Base.Dict.{add, has}
use namespace_class.Errors.{ok, err, library, other}
use namespace_class.Policy.{Policy, from_csv, parse_csv, parse_gvk}
use namespace_class.GroupVersionKind.{format}
use namespace_class.Manager.{Options, default_options, with_defaults}
use namespace_class.Startup.Ended.{Ended, main-Ended}
use namespace_class.Startup.Calls.{add_healthz_check, Answers, get_config, start_manager}
use namespace_class.Startup.Command.{stopped, main}
use namespace_class.Startup.Started.{construction, Started, main-Started}

-- No flag changes an option.
unchanged : Bool × Options → Option (Bool × Options)
unchanged given = some given

unfailing : Answers
unfailing l c = ok tt

abbrev of_defaults : Policy
of_defaults = record { allow = []; deny = "rbac.authorization.k8s.io/v1/ClusterRoleBinding" ∷ [] }

-- The process starts the manager, and ends when it stops.
runs : main unfailing unchanged ≡ (
  stopped,
  start_manager ∷ construction (with_defaults default_options) of_defaults (get_config ∷ []),
)
unfolding main unfailing unchanged with_defaults default_options from_csv parse_csv parse_gvk split
    trim_space format add has
runs = refl

main-Started_example :
    Started unfailing unchanged
      (construction (with_defaults default_options) of_defaults (get_config ∷ []))
main-Started_example =
    main-Started unfailing unchanged stopped
      (construction (with_defaults default_options) of_defaults (get_config ∷ [])) runs

-- The health check cannot be added.
no_check : Answers
no_check l (add_healthz_check name) = err (library other "no check")
no_check l _ = ok tt

main-Ended_example :
    Ended no_check unchanged (main no_check unchanged).0 (main no_check unchanged).1
main-Ended_example = main-Ended no_check unchanged
