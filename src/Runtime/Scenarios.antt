-- ===== src/Runtime/Scenarios.antt =====
-- Concrete states for runs of the coordinator and of the acceptance authority.
mod Dispatches
mod Starts
mod Reconciling
mod Decisions
use artifex_dev.Prelude.{
  String, ◌≡◌, ◌⊎◌, ◌≢◌, ◌≤◌, refl, true, false, Option, none, some, [], ◌∷◌, ok, raise, ◌>>=◌,
  lookup, put, strip, lstrip, rstrip, is_space, is_blank, folds_to, casefold, fold_char, any,
  contains, is_subset, is_distinct,
}
use artifex_dev.Runtime.Actor.{
  ActorPrincipal, ActorLike, named, agent, actor_principal, is_unidentified, is_anonymous,
  require_action, grant_permits, credential_permits,
}
use artifex_dev.Runtime.Json.{
  secret_safe, secret_safe_fields, secret_safe_items, is_sensitive, occurs_in, begins_with,
}
use artifex_dev.Runtime.Examples.{envelope}
use artifex_dev.Runtime.Store.Tables.{
  FenceToken, Db, Attempt, ProjectJob, Run, EnvelopeRow, AcceptanceDecision, empty_db, lost_race,
  transaction, assert_fence, audit,
}
use artifex_dev.Runtime.Store.Lease.{find_envelope}
use artifex_dev.Runtime.Store.Transitions.{
  no_updates, insert, violates, has_value, add_row, transition_batch, apply_changes, apply_change,
  update_row, target_of,
}
use artifex_dev.Runtime.Store.Records.{
  find_dispatch, evidence, record_dispatch_authorization, record_acceptance, record_event,
}
use artifex_dev.Runtime.Coordinator.Base
use artifex_dev.Runtime.Coordinator.Base.{unknown_remains, not_dispatched, from_store}
use artifex_dev.Runtime.Coordinator.Creation.{attempts_in, count, create_attempt}
use artifex_dev.Runtime.Coordinator.Creation.Limit
use artifex_dev.Runtime.Coordinator.Dispatch.{
  DispatchRequest, reference_of, all_permitted, check_scope, authorization,
  authorize_attempt_dispatch,
}
use artifex_dev.Runtime.Coordinator.Dispatch.Scope
use artifex_dev.Runtime.Coordinator.Dispatch.Scope.{Within}
use artifex_dev.Runtime.Coordinator.Attempts.{
  record_result, end_attempt, finish_attempt, start_attempt, start_moves, move_from,
}
use artifex_dev.Runtime.Coordinator.Reconciliation.{
  jobs_of, all_terminal, is_terminal, settle, settle_run_for_job, safe_to_retry, still_unknown,
  reconcile_attempt, retry_attempt,
}
use artifex_dev.Runtime.Coordinator.Reconciliation.Outcomes
use artifex_dev.Runtime.Coordinator.Reconciliation.Settling
use artifex_dev.Runtime.Coordinator.Attempts.Guards
use artifex_dev.Runtime.Coordinator.Attempts.Guards.{moved}
use artifex_dev.Runtime.Acceptance
use artifex_dev.Runtime.Acceptance.{
  accept, evidence_not_bound, is_authority_gate, is_own_dispatch, latest_finished, own_gates,
  all_bound, gates_of, validate_evidence, check_outcome, decide,
}
use artifex_dev.Runtime.Acceptance.Evidence
use artifex_dev.Runtime.Acceptance.Evidence.{Covers}

unfoldable pub program : Unit {0}
unfolding ◌>>=◌ lookup put strip lstrip rstrip is_space is_blank folds_to casefold fold_char any
    contains is_subset is_distinct actor_principal is_unidentified is_anonymous require_action
    grant_permits credential_permits secret_safe secret_safe_fields secret_safe_items is_sensitive
    occurs_in begins_with transaction assert_fence audit find_envelope insert violates has_value
    add_row transition_batch apply_changes apply_change update_row target_of find_dispatch evidence
    record_dispatch_authorization record_acceptance record_event Base.stored attempts_in count
    create_attempt reference_of all_permitted check_scope authorize_attempt_dispatch record_result
    end_attempt finish_attempt reconcile_attempt retry_attempt start_attempt start_moves move_from
    jobs_of all_terminal settle settle_run_for_job Acceptance.stored latest_finished own_gates
    all_bound gates_of validate_evidence check_outcome decide
program = tt

abbrev pub scrub : String → String
scrub s = s

abbrev pub alice : FenceToken
alice = record { holder_id = "alice"; generation = 1; expires_at = 130 }

abbrev pub row : EnvelopeRow
row = record {
  fingerprint = "env-1-hash";
  approved_by = "alice";
  payload = record envelope {
    allowed_providers = "codex" ∷ [];
    allowed_provider_roles = "builder" ∷ [];
  };
}

abbrev pub job_in : String → ProjectJob
job_in state = record {
  project_job_id = "j";
  run_id = "r";
  state = state;
  purpose = "build";
  created_at = 100;
  updated_at = 100;
}

abbrev pub run_in : String → Run
run_in state = record {
  run_id = "r";
  workstream_id = "w";
  project_id = "p";
  envelope_id = "env-1";
  envelope_version = 1;
  state = state;
  created_at = 100;
  updated_at = 100;
}

abbrev pub attempt_in : String → Option String → Attempt
attempt_in state outcome = record {
  attempt_id = "a";
  project_job_id = "j";
  ordinal = 1;
  state = state;
  result_claim = none;
  reconciliation_outcome = outcome;
  created_at = 100;
  updated_at = 100;
}

-- One job with one attempt, in these states.
abbrev pub world : String → String → String → Option String → Db
world run_state job_state attempt_state outcome = record empty_db {
  lease = some (record { holder_id = "alice"; generation = 1; expires_at = 130 });
  envelopes = row ∷ [];
  workstreams =
      (
        "w",
        record {
          workstream_id = "w";
          project_id = "p";
          state = "ACTIVE";
          created_at = 100;
          updated_at = 100;
        },
      )
      ∷ [];
  runs = ("r", run_in run_state) ∷ [];
  project_jobs = ("j", job_in job_state) ∷ [];
  attempts = ("a", attempt_in attempt_state outcome) ∷ [];
}

abbrev pub bot : ActorPrincipal
bot = record {
  actor_id = "bot";
  actor_type = agent;
  authenticated = true;
  authentication_method = "token";
  direct_permissions = "runtime:dispatch" ∷ [];
  delegation = none;
}

abbrev pub carol : ActorLike
carol = named "carol"

abbrev pub request : DispatchRequest
request = record {
  provider_id = "codex";
  provider_role = "builder";
  requested_capabilities = "code" ∷ [];
  filesystem_permissions = "READ" ∷ [];
  network_permissions = [];
  tool_permissions = [];
  credential_reference_ids = [];
}

abbrev pub pending : Db
pending = world "PENDING" "PENDING" "PENDING" none
