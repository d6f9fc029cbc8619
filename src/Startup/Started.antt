-- ===== src/Startup/Started.antt =====
-- What has been done when cmd/namespace-class-controller/main.go starts the manager.
use namespace_class.Base.{
  ◌≡◌, ◌≢◌, refl, Bool, true, false, Option, none, some, [], ◌∷◌, arith, inl, inr,
}
use namespace_class.Errors.{Error, Result, ok, err, Result-cases}
use namespace_class.Policy.{Policy, from_csv}
use namespace_class.Manager.{Options, default_options, with_defaults}
use namespace_class.Startup.Calls.{
  Log, Answers, add_client_go_types, add_known_types, add_to_group_version, new_manager,
  add_healthz_check, add_readyz_check, index_field, build_controller, get_config, start_manager,
}
use namespace_class.Startup.Scheme.{group_version, known_types}
use namespace_class.Startup.Controller.{binding_class_name_field, controller_options}
use namespace_class.Startup.Manager.{manager_options, new_with, new}
use namespace_class.Startup.Command.{Outcome, main, after_flags, after_config, after_new}

-- The calls of `New` with completed options, the last first, after other calls.
abbrev pub construction : Options → Policy → Log → Log
construction options policy l =
    build_controller (controller_options policy options.reconcile_interval)
    ∷ index_field binding_class_name_field
    ∷ add_readyz_check "readyz"
    ∷ add_healthz_check "healthz"
    ∷ new_manager (manager_options options)
    ∷ add_to_group_version group_version
    ∷ add_known_types group_version known_types
    ∷ add_client_go_types
    ∷ l

module _ (answers : Answers) where
  -- Each call that can fail has succeeded.
  abbrev pub Granted : Log → Type 0
  Granted [] = Unit {0}
  Granted (add_known_types _ _ ∷ l) = Granted l
  Granted (add_to_group_version _ ∷ l) = Granted l
  Granted (c ∷ l) = (answers l c ≡ ok tt) × Granted l

  new_with-construction :
      (options : Options) (policy : Policy) (l l' : Log)
      → from_csv options.policy_allow_gvks options.policy_deny_gvks ≡ ok policy
      → new_with answers options l ≡ (ok tt, l')
      → Granted l
      → (l' ≡ construction options policy l) × Granted (construction options policy l)
  unfolding new_with
  new_with-construction options policy l l' parsed h granted = ground (arith, h)

  -- The manager is started after a construction that succeeds.
  new_with-ok :
      (options : Options) (outcome : Outcome) (l : Log)
      → after_new answers (new_with answers options (get_config ∷ []))
        ≡ (outcome, start_manager ∷ l)
      → new_with answers options (get_config ∷ []) ≡ (ok tt, l)
  unfolding new_with
  new_with-ok options outcome l h = ground (arith, h)

  new_with-no_policy :
      (options : Options) (error : Error) (l l' : Log)
      → from_csv options.policy_allow_gvks options.policy_deny_gvks ≡ err error
      → new_with answers options l ≢ (ok tt, l')
  unfolding new_with
  new_with-no_policy options error l l' failed h = ground (arith, h)

  -- What stands when the manager is started.
  pub record Started (flags : Bool × Options → Option (Bool × Options)) (l : Log) : Type 0 where
    pub options : Options
    pub policy : Policy
    pub given : flags (false, default_options) ≡ some (false, options)
    pub parsed :
        from_csv (with_defaults options).policy_allow_gvks (with_defaults options).policy_deny_gvks
        ≡ ok policy
    pub calls : l ≡ construction (with_defaults options) policy (get_config ∷ [])
    pub granted : Granted l

  after_config-Started :
      (flags : Bool × Options → Option (Bool × Options)) (options : Options) (r : Result (Unit {0}))
      (outcome : Outcome) (l : Log)
      → flags (false, default_options) ≡ some (false, options)
      → answers [] get_config ≡ r
      → after_config answers options r (get_config ∷ []) ≡ (outcome, start_manager ∷ l)
      → Started flags l
  unfolding new
  after_config-Started flags options (ok done) outcome l given e h =
      let completed : Options = with_defaults options in
      let built = new_with-ok completed outcome l h in
      elim (Result-cases (from_csv completed.policy_allow_gvks completed.policy_deny_gvks)) [
        | inl (policy, parsed) ↦
            let made = new_with-construction completed policy _ l parsed built (e, tt) in
            record {
              options = options;
              policy = policy;
              given = given;
              parsed = parsed;
              calls = made.0;
              granted = rw made.0 made.1;
            }
        | inr (error, failed) ↦ absurd (new_with-no_policy completed error _ l failed built)
      ]
  after_config-Started flags options (err error) outcome l given e h = cc h

  after_flags-Started :
      (flags : Bool × Options → Option (Bool × Options)) (r : Option (Bool × Options))
      (outcome : Outcome) (l : Log)
      → flags (false, default_options) ≡ r
      → after_flags answers r ≡ (outcome, start_manager ∷ l)
      → Started flags l
  after_flags-Started flags none outcome l given h = cc h
  after_flags-Started flags (some (true, options)) outcome l given h = cc h
  after_flags-Started flags (some (false, options)) outcome l given h =
      after_config-Started flags options (answers [] get_config) outcome l given refl h

-- Where the process starts the manager, whatever the libraries answer: the flag package has returned
-- options without the version flag; the policy was parsed from these options, completed by the
-- defaults; and the calls before are those of the config, the two schemes, the manager with these
-- options, the two checks, the index and the controller with this policy and interval, each of
-- which succeeded, in this order, and no other.
pub main-Started :
    (answers : Answers) (flags : Bool × Options → Option (Bool × Options)) (outcome : Outcome)
    (l : Log)
    → main answers flags ≡ (outcome, start_manager ∷ l)
    → Started answers flags l
unfolding main
main-Started answers flags outcome l h =
    after_flags-Started answers flags (flags (false, default_options)) outcome l refl h
