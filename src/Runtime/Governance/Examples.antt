-- ===== src/Runtime/Governance/Examples.antt =====
-- Runs of the governance managers, and their theorems at concrete inputs.
use Prim.Native.String.{◌++◌ as append}
use artifex_dev.Prelude.{
  String, ◌≡◌, ◌≢◌, ◌⊎◌, refl, Bool, true, none, some, List, [], ◌∷◌, ok, raise, lookup, insert_key,
  sort_keys, is_empty,
}
use artifex_dev.Runtime.Actor.{ActorPrincipal, user, interaction_client, require_action}
use artifex_dev.Runtime.Envelope.{strategic_material}
use artifex_dev.Runtime.Store.Tables.{
  Db, SessionRow, DecisionRequest, OperationalControl, type_name,
}
use artifex_dev.Runtime.Store.Sessions.{create_interaction_session, update_interaction_session}
use artifex_dev.Runtime.Store.Requests.{
  block_workstream, resume_workstream, close_request, block_workstreams, create_decision_request,
  resume_workstreams, resolve_open, resolve_decision_request,
}
use artifex_dev.Runtime.Store.Requests.Blocking.{state_of}
use artifex_dev.Runtime.Store.Controls.{find_control, put_control, set_operational_control}
use artifex_dev.Runtime.Governance.Base.{dispatch_blocked, blocked_by_decision, stored}
use artifex_dev.Runtime.Governance.Sessions.{
  InteractionSession, interaction_state, from_row, require_session, move_session, reconnect, active,
}
use artifex_dev.Runtime.Governance.Sessions.Lifecycle.{
  SessionCall, open_call, reconnect_call, close_call, calls,
}
use artifex_dev.Runtime.Governance.Sessions.Lifecycle
use artifex_dev.Runtime.Governance.Decisions.{
  approve, is_user, blockable, states_of, keys, stored_request, request, create, resolve,
}
use artifex_dev.Runtime.Governance.Decisions.Restoring
use artifex_dev.Runtime.Governance.Controls.{
  running, emergency_stop, workstream, control_state, validate_scope, validate_project_scope,
  previous_state, is_uncertain, store_control, set_control, controls_at, strictest,
  effective_for_attempt, assert_dispatch_allowed, is_operator,
}
use artifex_dev.Runtime.Governance.Controls.Gate
use artifex_dev.Runtime.Governance.Controls.Setting
use artifex_dev.Runtime.Scenarios.{program, scrub, alice, world}

governed : Unit {0}
unfolding program is_empty create_interaction_session update_interaction_session block_workstream
    resume_workstream close_request block_workstreams create_decision_request resume_workstreams
    resolve_open resolve_decision_request find_control put_control set_operational_control stored
    interaction_state from_row require_session move_session reconnect blockable states_of insert_key
    sort_keys keys stored_request request create resolve control_state validate_scope
    validate_project_scope previous_state is_uncertain store_control set_control controls_at
    strictest effective_for_attempt assert_dispatch_allowed
governed = tt

abbrev dora : ActorPrincipal
dora = record {
  actor_id = "dora";
  actor_type = user;
  authenticated = true;
  authentication_method = "token";
  direct_permissions = "*" ∷ [];
  delegation = none;
}

abbrev client : ActorPrincipal
client = record dora { actor_id = "client"; actor_type = interaction_client }

-- A hash for the examples.
abbrev hash : String → String
hash s = append "#" s

abbrev session_in : String → SessionRow
session_in state = record {
  session_id = "s";
  project_id = "p";
  workstream_id = none;
  run_id = none;
  actor_id = "client";
  actor_type = interaction_client;
  delegation_id = none;
  delegated_actions = "*" ∷ [];
  opened_revision = 3;
  last_seen_revision = 3;
  state = state;
  reconnect_token_hash = "#secret";
  created_at = 100;
  updated_at = 100;
}

abbrev with_session : String → Db
with_session state = record (world "RUNNING" "RUNNING" "RUNNING" none) {
  sessions = ("s", session_in state) ∷ [];
}

abbrev attack : List SessionCall
attack =
    reconnect_call "s" "secret" client alice 110 110
    ∷ open_call (record { project_id = "p"; number = 4 }) client none none (some "s") "fresh"
        "secret" alice 111 111
    ∷ close_call "s" client alice 112 112
    ∷ []

closed_session_final_example :
    lookup "s" (calls scrub hash attack (with_session "CLOSED")).sessions
    ≡ some (session_in "CLOSED")
unfolding governed
closed_session_final_example =
    Lifecycle.closed_session_final scrub hash attack "s" (session_in "CLOSED")
      (with_session "CLOSED") refl refl

abbrev back : InteractionSession
back = record {
  session_id = "s";
  project_id = "p";
  actor_id = "client";
  actor_type = interaction_client;
  delegated_actions = "*" ∷ [];
  opened_revision = 3;
  last_seen_revision = 3;
  state = active;
  workstream_id = none;
  run_id = none;
  delegation_id = none;
}

reconnected :
    (reconnect scrub hash "s" "secret" client alice 110 110 (with_session "DISCONNECTED")).0
    ≡ ok back
unfolding governed
reconnected = refl

reconnect_guarded_example :
    ((session_in "DISCONNECTED").state ≡ "DISCONNECTED")
    × ((session_in "DISCONNECTED").actor_id ≡ client.actor_id)
    × (type_name (session_in "DISCONNECTED").actor_type ≡ type_name client.actor_type)
    × ((session_in "DISCONNECTED").reconnect_token_hash ≡ hash "secret")
    × (require_action client "interaction:connect" "p" 110 ≡ ok tt)
unfolding governed
reconnect_guarded_example =
    Lifecycle.reconnect_guarded scrub hash "s" "secret" client alice 110 110
      (with_session "DISCONNECTED") back reconnected

abbrev ready : Db
ready = world "RUNNING" "PENDING" "PENDING" none

abbrev asked : DecisionRequest
asked = record {
  decision_request_id = "d";
  project_id = "p";
  run_id = some "r";
  requested_by = "dora";
  materiality = "STRATEGIC_MATERIAL";
  question = "Ship?";
  affected_workstreams = "w" ∷ [];
  blocked_from_states = ("w", "ACTIVE") ∷ [];
  state = "OPEN";
  outcome = none;
  resolution = none;
  resolved_by = none;
  created_at = 110;
  resolved_at = none;
}

abbrev asking : Db → Db
asking db =
    (create scrub "p" "Ship?" ("w" ∷ []) dora (some "r") (some "d") "fresh" strategic_material alice
      110 110 db).1

created :
    (create scrub "p" "Ship?"
      ("w" ∷ [])
      dora
      (some "r")
      (some "d")
      "fresh"
      strategic_material
      alice
      110
      110
      ready).0
    ≡ ok asked
unfolding governed
created = refl

create_blocks_example :
    (asked.state ≡ "OPEN")
    × (lookup "d" (asking ready).decision_requests ≡ some asked)
    × (state_of "w" (asking ready) ≡ some "BLOCKED")
unfolding governed
create_blocks_example =
    Restoring.create_blocks scrub "p" "Ship?" ("w" ∷ []) dora (some "r") (some "d") "fresh"
      strategic_material alice 110 110 ready asked "w" created

-- While the decision is open, nothing is dispatched.
dispatch_waits : (assert_dispatch_allowed "a" none (asking ready)).0 ≡ raise blocked_by_decision
unfolding governed
dispatch_waits = refl

abbrev answered : DecisionRequest
answered = record asked {
  state = "RESOLVED";
  outcome = some "APPROVE";
  resolution = some "yes";
  resolved_by = some "dora";
  resolved_at = some 120;
}

approved : (resolve scrub "d" approve "yes" dora alice 120 120 (asking ready)).0 ≡ ok answered
unfolding governed
approved = refl

kept : lookup "d" (asking ready).decision_requests ≡ some asked
unfolding governed
kept = refl

decision_restores_example :
    (is_user dora.actor_type ≡ true)
    × (state_of "w" (resolve scrub "d" approve "yes" dora alice 120 120 (asking ready)).1
        ≡ some "ACTIVE")
unfolding governed
decision_restores_example =
    Restoring.decision_restores scrub "p" "Ship?" ("w" ∷ []) dora (some "r") (some "d") "fresh"
      strategic_material alice 110 110 ready asked "w" "yes" dora alice 120 120 (asking ready)
      answered created kept approved

abbrev control_in : String → OperationalControl
control_in state = record {
  scope_type = "WORKSTREAM";
  scope_id = "w";
  project_id = some "p";
  state = state;
  reason = "check";
  generation = 1;
  actor_id = "dora";
  updated_at = 100;
}

abbrev controlled : String → Db
controlled state = record (world "RUNNING" "PENDING" "PENDING" none) {
  controls = control_in state ∷ [];
}

dispatch_stops : (assert_dispatch_allowed "a" none (controlled "PAUSED")).0 ≡ raise dispatch_blocked
unfolding governed
dispatch_stops = refl

open_now : (assert_dispatch_allowed "a" (some "codex") (controlled "RUNNING")).0 ≡ ok tt
unfolding governed
open_now = refl

dispatch_allowed_open_example :
    (◌≢◌ {A = String} "ACTIVE" "BLOCKED")
    × (Unit {0}
        × (Unit {0}
            × (((control_in "RUNNING").state ≡ "RUNNING")
                × (Unit {0} × (Unit {0} × (Unit {0} × Unit {0}))))))
unfolding governed
dispatch_allowed_open_example =
    Gate.dispatch_allowed_open "a" (some "codex") (controlled "RUNNING") open_now

abbrev resumed_control : OperationalControl
resumed_control = record (control_in "RUNNING") {
  reason = "fixed";
  generation = 2;
  updated_at = 110;
}

abbrev lifted : Db
lifted =
    (set_control scrub workstream "w" (some "p") running "fixed" dora true alice 110 110
      (controlled "EMERGENCY_STOP")).1

set_again :
    (set_control scrub workstream "w"
      (some "p")
      running
      "fixed"
      dora
      true
      alice
      110
      110
      (controlled "EMERGENCY_STOP")).0
    ≡ ok resumed_control
unfolding governed
set_again = refl

set_control_guarded_example :
    (require_action dora "control:operate" "p" 110 ≡ ok tt)
    × (is_operator dora.actor_type ≡ true)
    × (((control_in "EMERGENCY_STOP").state ≢ "EMERGENCY_STOP")
        ⊎ ((running ≡ emergency_stop) ⊎ (◌≡◌ {A = Bool} true true)))
    × (resumed_control.state ≡ "RUNNING")
    × (resumed_control.generation ≡ 2)
    × (find_control "WORKSTREAM" "w" lifted.controls ≡ some resumed_control)
unfolding governed
set_control_guarded_example =
    Setting.set_control_guarded scrub workstream "w" (some "p") running "fixed" dora true alice 110
      110 (controlled "EMERGENCY_STOP") resumed_control "WORKSTREAM" "w" set_again
