-- ===== src/Startup/Ended.antt =====
-- How the process of cmd/namespace-class-controller/main.go ends.
use namespace_class.Base.{◌≡◌, refl, Bool, true, false, Option, none, some, [], ◌∷◌, inl, inr, ◌⊎◌}
use namespace_class.Errors.{Error, Result, ok, err, Message, plain}
use namespace_class.Policy.{Policy, from_csv}
use namespace_class.Manager.{Options, default_options, with_defaults}
use namespace_class.Startup.Calls.{
  Call, Log, Answers, Setup, continue, perform, wrapped, or_wrap, ◌>>◌, add_client_go_types,
  add_known_types, add_to_group_version, new_manager, add_healthz_check, add_readyz_check,
  index_field, build_controller, get_config, start_manager,
}
use namespace_class.Startup.Scheme.{add_to_scheme, group_version, known_types}
use namespace_class.Startup.Controller.{
  binding_class_name_field, controller_options, setup_namespace_reconciler,
}
use namespace_class.Startup.Manager.{manager_options, new_with, new}
use namespace_class.Startup.Command.{
  Outcome, usage, printed, died, failed, stopped, version, main, after_flags, after_config,
  after_new, after_start,
}
use namespace_class.Startup.Started.{Granted}

module _ (answers : Answers) where
  -- The last call has failed, and each call before that can fail has succeeded.
  abbrev pub Refused : Log → Type 0
  Refused [] = ⊥
  Refused (c ∷ l) = (error : Error) × (answers l c ≡ err error) × Granted answers l

  -- The policy of the options cannot be parsed.
  abbrev pub Unparsed : Options → Type 0
  Unparsed options =
      (error : Error) × (from_csv options.policy_allow_gvks options.policy_deny_gvks ≡ err error)

  -- Calls are made until one fails.
  abbrev Halted : {A : Type 0} → Options → Result A × Log → Type 0
  Halted options (ok a, l) = Granted answers l
  Halted options (err e, l) = Refused l ⊎ (Unparsed options × Granted answers l)

  module _ (options : Options) where
    response-Halted :
        (c : Call) (l : Log) (r : Result (Unit {0}))
        → answers l c ≡ r
        → (answers l c ≡ ok tt → Granted answers (c ∷ l))
        → Granted answers l
        → Halted options (r, c ∷ l)
    response-Halted c l (ok done) h grant granted = grant h
    response-Halted c l (err e) h grant granted = inl (e, h, granted)

    perform-Halted :
        (c : Call) (l : Log)
        → (answers l c ≡ ok tt → Granted answers (c ∷ l))
        → Granted answers l
        → Halted options (perform answers c l)
    perform-Halted c l grant granted = response-Halted c l (answers l c) refl grant granted

    wrapped-Halted :
        {A : Type 0} (m : Message) (r : Result A) (l : Log)
        → Halted options (r, l)
        → Halted options (wrapped m r, l)
    wrapped-Halted m (ok a) l h = h
    wrapped-Halted m (err e) l h = h

    continue-Halted :
        {A B : Type 0} (r : Result A) (f : A → Setup B) (l : Log)
        → Halted options (r, l)
        → ((a : A) → Granted answers l → Halted options (f a l))
        → Halted options (continue r f l)
    continue-Halted (ok a) f l h go = go a h
    continue-Halted (err e) f l h go = h

    -- A call with its error wrapped, and what follows it.
    call-Halted :
        {B : Type 0} (m : Message) (c : Call) (f : Setup B) (l : Log)
        → (answers l c ≡ ok tt → Granted answers (c ∷ l))
        → Granted answers l
        → (Granted answers (c ∷ l) → Halted options (f (c ∷ l)))
        → Halted options ((or_wrap m (perform answers c) >> f) l)
    call-Halted m c f l grant granted go =
        continue-Halted (wrapped m (answers l c)) (λ _. f) (c ∷ l)
          (wrapped-Halted m (answers l c) (c ∷ l) (perform-Halted c l grant granted)) (λ _ g. go g)

    policy-Halted :
        (l : Log) (r : Result Policy)
        → from_csv options.policy_allow_gvks options.policy_deny_gvks ≡ r
        → Granted answers l
        → Halted options (r, l)
    policy-Halted l (ok policy) h granted = granted
    policy-Halted l (err e) h granted = inr ((e, h), granted)

    setup-Halted :
        (policy : Policy) (l : Log)
        → Granted answers l
        → Halted options (setup_namespace_reconciler answers policy options.reconcile_interval l)
    unfolding setup_namespace_reconciler
    setup-Halted policy l granted =
        call-Halted _ (index_field binding_class_name_field)
          (perform answers
            (build_controller (controller_options policy options.reconcile_interval)))
          l (λ h. (h, granted)) granted (λ g. perform-Halted _ _ (λ h. (h, g)) g)

    -- A function with its error wrapped.
    or_wrap-Halted :
        {A : Type 0} (m : Message) (f : Setup A) (l : Log)
        → Halted options (f l)
        → Halted options (or_wrap m f l)
    or_wrap-Halted m f l h = wrapped-Halted m (f l).0 (f l).1 h

    new_with-Halted : (l : Log) → Granted answers l → Halted options (new_with answers options l)
    unfolding new_with add_to_scheme
    new_with-Halted l granted =
        let read : Result Policy = from_csv options.policy_allow_gvks options.policy_deny_gvks in
        let built : Message = plain "build GVK policy" ∷ [] in
        let l1 : Log =
          add_to_group_version group_version
          ∷ add_known_types group_version known_types
          ∷ add_client_go_types
          ∷ l in
        let setup : Policy → Setup (Unit {0}) =
          λ policy. setup_namespace_reconciler answers policy options.reconcile_interval in
        call-Halted _ add_client_go_types _ l (λ h. (h, granted)) granted
          λ g.
            continue-Halted (wrapped built read) _ l1
              (wrapped-Halted built read l1 (policy-Halted l1 read refl g))
              λ policy _.
                call-Halted _ (new_manager (manager_options options)) _ l1 (λ h. (h, g)) g
                  λ g1.
                    call-Halted _ (add_healthz_check "healthz") _ _ (λ h. (h, g1)) g1
                      λ g2.
                        call-Halted _ (add_readyz_check "readyz") _ _ (λ h. (h, g2)) g2
                          λ g3.
                            or_wrap-Halted (plain "setup namespace reconciler" ∷ []) (setup policy)
                              _ (setup-Halted policy _ g3)

  -- How the process ends, after which calls.
  pub data Ended (flags : Bool × Options → Option (Bool × Options)) : Outcome → Log → Type 0 where
    misused : flags (false, default_options) ≡ none → Ended flags usage []
    asked :
        (options : Options)
        → flags (false, default_options) ≡ some (true, options)
        → Ended flags (printed version) []
    no_config :
        (options : Options) (error : Error)
        → flags (false, default_options) ≡ some (false, options)
        → answers [] get_config ≡ err error
        → Ended flags (died error) (get_config ∷ [])
    refused :
        {l : Log} (options : Options) (m : Message)
        → flags (false, default_options) ≡ some (false, options)
        → Refused l
        → Ended flags (failed m) l
    unparsed :
        {l : Log} (options : Options) (m : Message)
        → flags (false, default_options) ≡ some (false, options)
        → Unparsed (with_defaults options)
        → Granted answers l
        → Ended flags (failed m) l
    ran :
        {l : Log} (options : Options)
        → flags (false, default_options) ≡ some (false, options)
        → answers l start_manager ≡ ok tt
        → Granted answers l
        → Ended flags stopped (start_manager ∷ l)

  module _ (flags : Bool × Options → Option (Bool × Options)) where
    after_start-Ended :
        (options : Options) (l : Log) (r : Result (Unit {0}))
        → flags (false, default_options) ≡ some (false, options)
        → answers l start_manager ≡ r
        → Granted answers l
        → Ended flags (after_start answers r) (start_manager ∷ l)
    after_start-Ended options l (ok done) given h granted = Ended.ran options given h granted
    after_start-Ended options l (err e) given h granted =
        Ended.refused options _ given (e, h, granted)

    after_new-Ended :
        (options : Options) (p : Result (Unit {0}) × Log)
        → flags (false, default_options) ≡ some (false, options)
        → Halted (with_defaults options) p
        → Ended flags (after_new answers p).0 (after_new answers p).1
    after_new-Ended options (ok done, l) given granted =
        after_start-Ended options l (answers l start_manager) given refl granted
    after_new-Ended options (err e, l) given h = elim h [
      | inl refusal ↦ Ended.refused options _ given refusal
      | inr (bad, granted) ↦ Ended.unparsed options _ given bad granted
    ]

    after_config-Ended :
        (options : Options) (r : Result (Unit {0}))
        → flags (false, default_options) ≡ some (false, options)
        → answers [] get_config ≡ r
        → Ended flags
            (after_config answers options r (get_config ∷ [])).0
            (after_config answers options r (get_config ∷ [])).1
    unfolding new
    after_config-Ended options (ok done) given h =
        after_new-Ended options (new_with answers (with_defaults options) (get_config ∷ [])) given
          (new_with-Halted (with_defaults options) (get_config ∷ []) (h, tt))
    after_config-Ended options (err e) given h = Ended.no_config options e given h

    after_flags-Ended :
        (r : Option (Bool × Options))
        → flags (false, default_options) ≡ r
        → Ended flags (after_flags answers r).0 (after_flags answers r).1
    after_flags-Ended none given = Ended.misused given
    after_flags-Ended (some (true, options)) given = Ended.asked options given
    after_flags-Ended (some (false, options)) given =
        after_config-Ended options (answers [] get_config) given refl

-- Whatever the libraries answer, the process makes calls only until the first that fails. It ends
-- with the usage, or with the version and no call, only where the flag package says so; with the
-- config's error where the config cannot be had; with a failure only where the last call has failed,
-- or no call has and the policy of the options, completed by the defaults, cannot be parsed; and
-- otherwise when the manager stops without an error, after calls that have all succeeded.
pub main-Ended :
    (answers : Answers) (flags : Bool × Options → Option (Bool × Options))
    → Ended answers flags (main answers flags).0 (main answers flags).1
unfolding main
main-Ended answers flags = after_flags-Ended answers flags (flags (false, default_options)) refl
