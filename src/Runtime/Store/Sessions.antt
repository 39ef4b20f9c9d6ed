-- ===== src/Runtime/Store/Sessions.antt =====
-- `create_interaction_session` and `update_interaction_session` of src/artifex/runtime/store.py.
use artifex_dev.Prelude.{ℕ, String, none, gets, modify, raise_if, lift, ◌>>=◌, ◌>>◌, lookup, put}
use artifex_dev.Runtime.Actor.{ActorLike, is_unidentified}
use artifex_dev.Runtime.Json.{number, text, field, done}
use artifex_dev.Runtime.Store.Tables.{
  unidentified_actor, integrity_error, session_mismatch, SessionRow, FenceToken, Method,
  transaction, assert_fence, audit, changed,
}
use artifex_dev.Runtime.Store.Transitions.{is_some, move}

module _ (scrub_secrets : String → String) where
  -- `create_interaction_session`; the row has the fields of `values`.
  unfoldable pub create_interaction_session :
      SessionRow → FenceToken → ℕ → ActorLike → Method (Unit {0})
  create_interaction_session s token now actor = do
    raise_if unidentified_actor (is_unidentified actor)
    transaction (do
      assert_fence token now
      refused ← gets (λ db. is_some (lookup s.session_id db.sessions))
      raise_if integrity_error refused
      modify (λ db. record db { sessions = put s.session_id s db.sessions })
      audit scrub_secrets "INTERACTION_SESSION_OPENED" actor "interaction_session" s.session_id now
          (field "project_id" (text s.project_id)
            (field "opened_revision" (number s.opened_revision) done))
          none)

  unfoldable pub update_interaction_session :
      String → String → String → ℕ → FenceToken → ℕ → ActorLike → String → Method (Unit {0})
  update_interaction_session session_id expected state revision token now actor event_type = do
    raise_if unidentified_actor (is_unidentified actor)
    transaction (do
      assert_fence token now
      updated ← gets (λ db.
          changed session_mismatch (λ s. record db { sessions = put session_id s db.sessions })
            (move (λ (s : SessionRow). s.state)
              (λ s. record s { state = state; last_seen_revision = revision; updated_at = now })
              expected (lookup session_id db.sessions)))
      db ← lift updated
      modify (λ _. db)
      audit scrub_secrets event_type actor "interaction_session" session_id now
          (field "from" (text expected)
            (field "to" (text state) (field "last_seen_revision" (number revision) done)))
          none)
