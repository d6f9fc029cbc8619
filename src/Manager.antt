-- ===== src/Manager.antt =====
-- The options of internal/manager/manager.go, and the policy that `New` builds of them.
pub mod Defaults
use namespace_class.Base.{String, ◌==◌, Bool, true, false, [], ◌∷◌, if◌then◌else◌}
use namespace_class.Base.Int.{ℤ, pos, is_zero}
use namespace_class.Errors.{Result, plain, wrapping}
use namespace_class.Policy.{Policy, from_csv, default_deny_gvks_csv}

pub record Options : Type 0 where
  pub metrics_bind_address : String
  pub health_probe_bind_address : String
  pub leader_election : Bool
  pub leader_election_id : String
  pub policy_allow_gvks : String
  pub policy_deny_gvks : String
  -- a time.Duration, in nanoseconds
  pub reconcile_interval : ℤ

abbrev pub default_leader_election_id : String
default_leader_election_id = "namespace-class-controller.namespaceclass.akuity.io"

-- 5 * time.Minute
abbrev pub default_reconcile_interval : ℤ
default_reconcile_interval = pos 300000000000

unfoldable pub default_options : Options
default_options = record {
  metrics_bind_address = "0";
  health_probe_bind_address = ":8081";
  leader_election = false;
  leader_election_id = default_leader_election_id;
  policy_allow_gvks = "";
  policy_deny_gvks = default_deny_gvks_csv;
  reconcile_interval = default_reconcile_interval;
}

-- `if value == "" { value = default }`
abbrev or_default : String → String → String
or_default value default = if value == "" then default else value

unfoldable pub with_defaults : Options → Options
unfolding default_options
with_defaults options = record options {
  metrics_bind_address =
      or_default options.metrics_bind_address default_options.metrics_bind_address;
  health_probe_bind_address =
      or_default options.health_probe_bind_address default_options.health_probe_bind_address;
  leader_election_id = or_default options.leader_election_id default_options.leader_election_id;
  policy_deny_gvks = or_default options.policy_deny_gvks default_options.policy_deny_gvks;
  reconcile_interval =
      if is_zero options.reconcile_interval
      then default_options.reconcile_interval
      else options.reconcile_interval;
}

-- The resource policy of `New`.
unfoldable pub resource_policy : Options → Result Policy
unfolding with_defaults
resource_policy options =
    wrapping (plain "build GVK policy" ∷ [])
      (from_csv (with_defaults options).policy_allow_gvks (with_defaults options).policy_deny_gvks)
