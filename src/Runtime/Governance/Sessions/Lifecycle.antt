-- ===== src/Runtime/Governance/Sessions/Lifecycle.antt =====
-- What calls of the session manager do to a session.
use artifex_dev.Prelude.{
  ℕ, String, ◌≡◌, Option, some, List, [], ◌∷◌, ok, arith, lookup, eq_iff, ◌>>=◌,
}
use artifex_dev.Runtime.Actor.{ActorPrincipal, require_action}
use artifex_dev.Runtime.Store.Tables.{FenceToken, Db, SessionRow, type_name}
use artifex_dev.Runtime.Coordinator.Base.{Found}
use artifex_dev.Runtime.Governance.Sessions.{
  interaction_state, InteractionSession, from_row, require_session, ProjectRevision, disconnect,
  close, record_revision, open_session, reconnect,
}
use artifex_dev.Runtime.Governance.Sessions.Keeping.{
  Keeps-disconnect, Keeps-revision, Keeps-close, Keeps-reconnect, Keeps-open,
}

-- A call of the manager, with the readings of the clock that it makes.
pub data SessionCall : Type 0 where
  open_call :
      ProjectRevision
      → ActorPrincipal
      → Option String
      → Option String
      → Option String
      → String
      → String
      → FenceToken
      → ℕ
      → ℕ
      → SessionCall
  disconnect_call : String → ActorPrincipal → FenceToken → ℕ → ℕ → SessionCall
  reconnect_call : String → String → ActorPrincipal → FenceToken → ℕ → ℕ → SessionCall
  close_call : String → ActorPrincipal → FenceToken → ℕ → ℕ → SessionCall
  revision_call : String → ℕ → ActorPrincipal → FenceToken → ℕ → ℕ → SessionCall

module _ (scrub_secrets : String → String) (token_hash : String → String) where
  unfoldable pub call : SessionCall → Db → Db
  call (open_call revision p workstream run session fresh secret token checked now) db =
      (open_session scrub_secrets token_hash revision p workstream run session fresh secret token
        checked now db).1
  call (disconnect_call x p token checked now) db =
      (disconnect scrub_secrets x p token checked now db).1
  call (reconnect_call x secret p token checked now) db =
      (reconnect scrub_secrets token_hash x secret p token checked now db).1
  call (close_call x p token checked now) db = (close scrub_secrets x p token checked now db).1
  call (revision_call x revision p token checked now) db =
      (record_revision scrub_secrets x revision p token checked now db).1

  unfoldable pub calls : List SessionCall → Db → Db
  calls [] db = db
  calls (c ∷ cs) db = calls cs (call c db)

  call_keeps :
      (c : SessionCall) (id : String) (r : SessionRow) (db : Db)
      → r.state ≡ "CLOSED"
      → lookup id db.sessions ≡ some r
      → lookup id (call c db).sessions ≡ some r
  unfolding call
  call_keeps (open_call revision p workstream run session fresh secret token checked now) id r db
        end found =
      (Keeps-open scrub_secrets id r token_hash revision p workstream run session fresh secret token
          checked now).at
        db found
  call_keeps (disconnect_call x p token checked now) id r db end found =
      (Keeps-disconnect scrub_secrets id r end x p token checked now).at db found
  call_keeps (reconnect_call x secret p token checked now) id r db end found =
      (Keeps-reconnect scrub_secrets id r end token_hash x secret p token checked now).at db found
  call_keeps (close_call x p token checked now) id r db end found =
      (Keeps-close scrub_secrets id r end x p token checked now).at db found
  call_keeps (revision_call x revision p token checked now) id r db end found =
      (Keeps-revision scrub_secrets id r end x revision p token checked now).at db found

  -- A session that is CLOSED is never changed again: after any calls of the session manager, by any
  -- actors and whether they return or raise, a new opening under its identifier included, the row
  -- is the one that was there.
  pub closed_session_final :
      (cs : List SessionCall) (id : String) (r : SessionRow) (db : Db)
      → r.state ≡ "CLOSED"
      → lookup id db.sessions ≡ some r
      → lookup id (calls cs db).sessions ≡ some r
  unfolding calls
  closed_session_final [] id r db end found = found
  closed_session_final (c ∷ cs) id r db end found =
      closed_session_final cs id r (call c db) end (call_keeps c id r db end found)

  -- When `reconnect` returns, the stored session was DISCONNECTED, the actor is the one who opened
  -- it and of the same type, the reconnect token has the stored hash, and the actor is permitted to
  -- connect to the project now.
  pub reconnect_guarded :
      (x secret : String) (p : ActorPrincipal) (token : FenceToken) (checked now : ℕ) (db : Db)
      (s : InteractionSession)
      → (reconnect scrub_secrets token_hash x secret p token checked now db).0 ≡ ok s
      → Found (lookup x db.sessions) λ r.
        (r.state ≡ "DISCONNECTED")
        × (r.actor_id ≡ p.actor_id)
        × (type_name r.actor_type ≡ type_name p.actor_type)
        × (r.reconnect_token_hash ≡ token_hash secret)
        × (require_action p "interaction:connect" r.project_id checked ≡ ok tt)
  unfolding reconnect require_session from_row interaction_state ◌>>=◌
  reconnect_guarded x secret p token checked now db s h = grind (arith, eq_iff)
