-- ===== src/Startup/Command.antt =====
-- cmd/namespace-class-controller/main.go. What the command line makes of the flags' defaults is a
-- parameter: `none` where the flag package ends the process.
use namespace_class.Base.{String, Bool, true, false, Option, none, some, [], ◌∷◌}
use namespace_class.Errors.{Result, ok, err, Error, Message, message, plain}
use namespace_class.Manager.{Options, default_options}
use namespace_class.Startup.Calls.{Log, Answers, get_config, start_manager}
use namespace_class.Startup.Manager.{new}

abbrev pub version : String
version = "dev"

-- How the process ends.
pub data Outcome : Type 0 where
  -- the flag package has ended it
  usage : Outcome
  -- after printing a line
  printed : String → Outcome
  -- by GetConfigOrDie
  died : Error → Outcome
  -- with status 1 and a line to the standard error
  failed : Message → Outcome
  -- the manager has stopped
  stopped : Outcome

module _ (answers : Answers) where
  abbrev pub after_start : Result (Unit {0}) → Outcome
  after_start (ok _) = stopped
  after_start (err e) = failed (plain "run manager: " ∷ message e)

  abbrev pub after_new : Result (Unit {0}) × Log → Outcome × Log
  after_new (ok _, l) = (after_start (answers l start_manager), start_manager ∷ l)
  after_new (err e, l) = (failed (plain "create manager: " ∷ message e), l)

  abbrev pub after_config : Options → Result (Unit {0}) → Log → Outcome × Log
  after_config options (ok _) l = after_new (new answers true options l)
  after_config options (err e) l = (died e, l)

  abbrev pub after_flags : Option (Bool × Options) → Outcome × Log
  after_flags none = (usage, [])
  after_flags (some (true, options)) = (printed version, [])
  after_flags (some (false, options)) =
      after_config options (answers [] get_config) (get_config ∷ [])

  -- The process, with the calls that it makes. The version flag is not set by default.
  unfoldable pub main : (Bool × Options → Option (Bool × Options)) → Outcome × Log
  unfolding new default_options
  main flags = after_flags (flags (false, default_options))
