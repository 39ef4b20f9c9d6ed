-- ===== src/Runtime/Governance/Sessions.antt =====
-- `InteractionSessionManager` of src/artifex/runtime/governance.py. `_token_hash`, a SHA-256, is a
-- parameter; a new identifier and a new reconnect token are arguments.
pub mod Keeping
pub mod Lifecycle
use artifex_dev.Prelude.{
  ℕ, String, Bool, true, false, not, ◌&&◌, ◌||◌, Option, none, some, List, if◌then◌else◌, Result,
  ok, raise, pure, gets, require, raise_if, lift, ◌>>=◌, ◌>>◌, lookup, str_eq,
}
use artifex_dev.Runtime.Actor.{
  ActorType, ActorPrincipal, DelegationGrant, principal, require_action, interaction_client,
}
use artifex_dev.Runtime.Store.Tables.{FenceToken, Db, Run, Workstream, SessionRow, grant_id_of}
use artifex_dev.Runtime.Store.Sessions.{create_interaction_session, update_interaction_session}
use artifex_dev.Runtime.Governance.Base.{
  GovernanceError, not_a_client, run_outside_project, run_workstream_mismatch,
  workstream_outside_project, unknown_session, not_active, actor_mismatch, not_disconnected,
  invalid_credential, bad_value, Method, stored, authorize, same_type,
}

pub data InteractionState : Type 0 where
  active disconnected closed : InteractionState

-- `InteractionState.value`
abbrev pub state_name : InteractionState → String
state_name active = "ACTIVE"
state_name disconnected = "DISCONNECTED"
state_name closed = "CLOSED"

-- `InteractionState(value)`
unfoldable pub interaction_state : String → Option InteractionState
interaction_state s =
    if str_eq s "ACTIVE"
    then some active
    else if str_eq s "DISCONNECTED"
    then some disconnected
    else if str_eq s "CLOSED"
    then some closed
    else none

pub record InteractionSession : Type 0 where
  pub session_id : String
  pub project_id : String
  pub actor_id : String
  pub actor_type : ActorType
  pub delegated_actions : List String
  pub opened_revision : ℕ
  pub last_seen_revision : ℕ
  pub state : InteractionState
  pub workstream_id : Option String
  pub run_id : Option String
  pub delegation_id : Option String

abbrev session_in : SessionRow → InteractionState → InteractionSession
session_in r state = record {
  session_id = r.session_id;
  project_id = r.project_id;
  actor_id = r.actor_id;
  actor_type = r.actor_type;
  delegated_actions = r.delegated_actions;
  opened_revision = r.opened_revision;
  last_seen_revision = r.last_seen_revision;
  state = state;
  workstream_id = r.workstream_id;
  run_id = r.run_id;
  delegation_id = r.delegation_id;
}

abbrev with_state : SessionRow → Option InteractionState → Result GovernanceError InteractionSession
with_state r none = raise bad_value
with_state r (some state) = ok (session_in r state)

-- `InteractionSession.from_row`
unfoldable pub from_row : SessionRow → Result GovernanceError InteractionSession
from_row r = with_state r (interaction_state r.state)

abbrev row_of : Option SessionRow → Result GovernanceError InteractionSession
row_of none = raise unknown_session
row_of (some r) = from_row r

-- `InteractionSessionManager.require`
unfoldable pub require_session : String → Method InteractionSession
require_session session_id db = lift (row_of (lookup session_id db.sessions)) db

abbrev pub is_active : InteractionState → Bool
is_active active = true
is_active _ = false

abbrev pub is_disconnected : InteractionState → Bool
is_disconnected disconnected = true
is_disconnected _ = false

-- `actor.actor_id == session.actor_id and actor.actor_type is session.actor_type`
abbrev pub is_own : ActorPrincipal → InteractionSession → Bool
is_own p s = str_eq p.actor_id s.actor_id && same_type p.actor_type s.actor_type

unfoldable pub require_active : String → ActorPrincipal → ℕ → Method InteractionSession
require_active session_id p now = do
  session ← require_session session_id
  raise_if not_active (not (is_active session.state))
  raise_if actor_mismatch (not (is_own p session))
  authorize (require_action p "interaction:write" session.project_id now)
  pure session

-- What `ProjectAuthority(project_root).current()` gives.
pub record ProjectRevision : Type 0 where
  pub project_id : String
  pub number : ℕ

abbrev pub run_in : String → Option Run → Bool
run_in project_id none = false
run_in project_id (some r) = str_eq r.project_id project_id

abbrev pub run_of : Option String → Option Run → Bool
run_of none r = true
run_of (some workstream_id) none = false
run_of (some workstream_id) (some r) = str_eq r.workstream_id workstream_id

-- `if run_id is not None`
abbrev pub check_run : String → Option String → Option String → Method (Unit {0})
check_run project_id workstream_id none = pure tt
check_run project_id workstream_id (some run_id) = do
  run ← gets (λ db. lookup run_id db.runs)
  raise_if run_outside_project (not (run_in project_id run))
  raise_if run_workstream_mismatch (not (run_of workstream_id run))

abbrev pub workstream_in : String → Option Workstream → Bool
workstream_in project_id none = false
workstream_in project_id (some w) = str_eq w.project_id project_id

-- `if workstream_id is not None`
abbrev pub check_workstream : String → Option String → Method (Unit {0})
check_workstream project_id none = pure tt
check_workstream project_id (some workstream_id) = do
  workstream ← gets (λ db. lookup workstream_id db.workstreams)
  raise_if workstream_outside_project (not (workstream_in project_id workstream))

-- `session_id or f"session-{uuid.uuid4()}"`
abbrev pub or_fresh : Option String → String → String
or_fresh none fresh = fresh
or_fresh (some id) fresh = if str_eq id "" then fresh else id

abbrev actions_of : ActorPrincipal → Option DelegationGrant → List String
actions_of p none = p.direct_permissions
actions_of p (some g) = g.allowed_actions

-- `return self.require(identifier), reconnect_token`
abbrev pub answer : String → String → Method (InteractionSession × String)
answer identifier reconnect_token = do
  session ← require_session identifier
  pure (session, reconnect_token)

abbrev is_client : ActorType → Bool
is_client interaction_client = true
is_client _ = false

module _ (scrub_secrets : String → String) where
  -- `_transition`
  unfoldable pub move_session :
      InteractionSession
      → InteractionState
      → ActorPrincipal
      → String
      → FenceToken
      → ℕ
      → Method (Unit {0})
  move_session session target p event_type token now = stored (
      update_interaction_session scrub_secrets session.session_id (state_name session.state)
        (state_name target) session.last_seen_revision token now (principal p) event_type)

  -- `checked` is the clock at the check of the actor's authority, here and below.
  unfoldable pub disconnect :
      String → ActorPrincipal → FenceToken → ℕ → ℕ → Method InteractionSession
  disconnect session_id p token checked now = do
    session ← require_active session_id p checked
    move_session session disconnected p "INTERACTION_DISCONNECTED" token now
    require_session session_id

  -- The rest of `close`; a CLOSED session is returned as it is.
  abbrev pub close_from :
      InteractionState
      → String
      → InteractionSession
      → ActorPrincipal
      → FenceToken
      → ℕ
      → ℕ
      → Method InteractionSession
  close_from closed session_id session p token checked now = pure session
  close_from _ session_id session p token checked now = do
    raise_if actor_mismatch (not (str_eq p.actor_id session.actor_id))
    authorize (require_action p "interaction:connect" session.project_id checked)
    move_session session closed p "INTERACTION_CLOSED" token now
    require_session session_id

  unfoldable pub close : String → ActorPrincipal → FenceToken → ℕ → ℕ → Method InteractionSession
  close session_id p token checked now = do
    session ← require_session session_id
    close_from session.state session_id session p token checked now

  unfoldable pub record_revision :
      String → ℕ → ActorPrincipal → FenceToken → ℕ → ℕ → Method InteractionSession
  record_revision session_id revision p token checked now = do
    require_active session_id p checked >>= λ _. stored (
        update_interaction_session scrub_secrets session_id "ACTIVE" "ACTIVE" revision token now
          (principal p) "INTERACTION_REVISION_OBSERVED")
    require_session session_id

module _ (scrub_secrets : String → String) (token_hash : String → String) where
  unfoldable pub open_session :
      ProjectRevision
      → ActorPrincipal
      → Option String
      → Option String
      → Option String
      → String
      → String
      → FenceToken
      → ℕ
      → ℕ
      → Method (InteractionSession × String)
  open_session revision p workstream_id run_id session_id fresh reconnect_token token checked now =
      do
        authorize (require_action p "interaction:connect" revision.project_id checked)
        raise_if not_a_client (not (is_client p.actor_type))
        check_run revision.project_id workstream_id run_id
        check_workstream revision.project_id workstream_id
        stored (
            create_interaction_session scrub_secrets
              (record {
                session_id = or_fresh session_id fresh;
                project_id = revision.project_id;
                workstream_id = workstream_id;
                run_id = run_id;
                actor_id = p.actor_id;
                actor_type = p.actor_type;
                delegation_id = grant_id_of p.delegation;
                delegated_actions = actions_of p p.delegation;
                opened_revision = revision.number;
                last_seen_revision = revision.number;
                state = "ACTIVE";
                reconnect_token_hash = token_hash reconnect_token;
                created_at = now;
                updated_at = now;
              })
              token now (principal p))
        session ← require_session (or_fresh session_id fresh)
        pure (session, reconnect_token)

  abbrev hash_of : Option SessionRow → String → Bool
  hash_of none reconnect_token = false
  hash_of (some r) reconnect_token = str_eq r.reconnect_token_hash (token_hash reconnect_token)

  unfoldable pub reconnect :
      String → String → ActorPrincipal → FenceToken → ℕ → ℕ → Method InteractionSession
  reconnect session_id reconnect_token p token checked now = do
    session ← require_session session_id
    raise_if not_disconnected (not (is_disconnected session.state))
    raise_if actor_mismatch (not (is_own p session))
    row ← gets (λ db. lookup session_id db.sessions)
    raise_if invalid_credential (not (hash_of row reconnect_token))
    authorize (require_action p "interaction:connect" session.project_id checked)
    move_session scrub_secrets session active p "INTERACTION_RECONNECTED" token now
    require_session session_id
