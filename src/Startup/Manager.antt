-- ===== src/Startup/Manager.antt =====
-- `New` of internal/manager/manager.go.
use namespace_class.Base.{Bool, true, false, [], ◌∷◌}
use namespace_class.Errors.{err, errorf, plain}
use namespace_class.Policy.{from_csv}
use namespace_class.Manager.{Options, with_defaults}
use namespace_class.Startup.Calls.{
  ManagerOptions, Setup, Answers, lift, perform, or_wrap, ◌>>=◌, ◌>>◌, add_client_go_types,
  new_manager, add_healthz_check, add_readyz_check,
}
use namespace_class.Startup.Scheme.{add_to_scheme}
use namespace_class.Startup.Controller.{setup_namespace_reconciler}

-- The options that `New` hands to controller-runtime.
abbrev pub manager_options : Options → ManagerOptions
manager_options options = record {
  metrics_bind_address = options.metrics_bind_address;
  health_probe_bind_address = options.health_probe_bind_address;
  leader_election = options.leader_election;
  leader_election_id = options.leader_election_id;
}

module _ (answers : Answers) where
  -- With the options completed.
  unfoldable pub new_with : Options → Setup (Unit {0})
  unfolding add_to_scheme setup_namespace_reconciler
  new_with options = do
    or_wrap (plain "add client-go scheme" ∷ []) (perform answers add_client_go_types)
    or_wrap (plain "add namespaceclass scheme" ∷ []) (add_to_scheme answers)
    policy ←
        or_wrap (plain "build GVK policy" ∷ [])
          (lift (from_csv options.policy_allow_gvks options.policy_deny_gvks))
    or_wrap (plain "create manager" ∷ []) (perform answers (new_manager (manager_options options)))
    or_wrap (plain "add healthz check" ∷ []) (perform answers (add_healthz_check "healthz"))
    or_wrap (plain "add readyz check" ∷ []) (perform answers (add_readyz_check "readyz"))
    or_wrap (plain "setup namespace reconciler" ∷ [])
        (setup_namespace_reconciler answers policy options.reconcile_interval)

  -- The first argument is whether there is a rest config.
  unfoldable pub new : Bool → Options → Setup (Unit {0})
  unfolding new_with with_defaults
  new false options = lift (err (errorf (plain "rest config must not be nil" ∷ [])))
  new true options = new_with (with_defaults options)
