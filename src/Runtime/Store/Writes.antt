-- ===== src/Runtime/Store/Writes.antt =====
-- The methods of the store that write under a coordinator's token, as one type.
pub mod Growth
pub mod Guarantees
mod Governing
use artifex_dev.Prelude.{
  ℕ, ◌+◌, ◌≤◌, ◌<◌, String, ◌≡◌, ◌≢◌, ◌⊎◌, inl, inr, refl, sym, ap, ◌∙◌, Bool, true, false, not,
  Option, none, some, List, [], ◌∷◌, ◌++◌, Result, ok, raise, Exec, pure, arith, eq_iff, str_eq,
  Bool-cases, ◌>>=◌, ◌>>◌, leb, continue,
}
use artifex_dev.Runtime.Actor.{ActorLike}
use artifex_dev.Runtime.Envelope.{ExecutionEnvelope}
use artifex_dev.Runtime.Json.{Fields}
use artifex_dev.Runtime.Store.Tables.{
  StoreError, stale_token, FenceToken, Lease, Db, Method, AcceptanceDecision, DispatchAuthorization,
  EvidenceRecord, AuditRow, SessionRow, DecisionRequest, transaction, assert_fence, holds,
  commit_or_rollback,
}
use artifex_dev.Runtime.Store.Lease.{acquire_coordinator, renew_coordinator, put_envelope}
use artifex_dev.Runtime.Store.Transitions.{
  Row, Change, insert, transition_batch, set_workspace_state,
}
use artifex_dev.Runtime.Store.Records.{
  record_dispatch_authorization, record_evidence, record_acceptance, record_event,
}
use artifex_dev.Runtime.Store.Proposals.{propose_envelope, mark_envelope_proposal_approved}
use artifex_dev.Runtime.Store.Sessions.{create_interaction_session, update_interaction_session}
use artifex_dev.Runtime.Store.Requests.{create_decision_request, resolve_decision_request}
use artifex_dev.Runtime.Store.Controls.{set_operational_control}

-- A write under a coordinator's token, with the arguments of its method.
pub data Write : Type 0 where
  envelope_write : ExecutionEnvelope → Option ActorLike → Option String → Write
  insert_write : Row → ActorLike → String → Write
  batch_write : List Change → ActorLike → Write
  workspace_write : String → String → String → ActorLike → Write
  dispatch_write : DispatchAuthorization → ActorLike → Option String → Write
  evidence_write : EvidenceRecord → ActorLike → Option String → Write
  acceptance_write : AcceptanceDecision → String → ActorLike → Option String → Write
  event_write : String → String → String → Fields → ActorLike → Option String → Write
  propose_write : ExecutionEnvelope → ActorLike → Option String → Write
  approve_write : String → ℕ → ActorLike → Write
  open_session_write : SessionRow → ActorLike → Write
  session_write : String → String → String → ℕ → ActorLike → String → Write
  request_write : DecisionRequest → ActorLike → Write
  resolve_write : String → String → String → Bool → ActorLike → Write
  control_write : String → String → Option String → String → String → ℕ → ActorLike → Write

module _ (scrub_secrets : String → String) (fingerprint : ExecutionEnvelope → String) where
  unfoldable pub perform : Write → FenceToken → ℕ → Method (Unit {0})
  perform (envelope_write e actor correlation) token now =
      put_envelope scrub_secrets fingerprint e token now actor correlation
  perform (insert_write row actor event) token now = insert scrub_secrets row token now actor event
  perform (batch_write changes actor) token now =
      transition_batch scrub_secrets changes token now actor
  perform (workspace_write id expected target actor) token now =
      set_workspace_state scrub_secrets id expected target token now actor
  perform (dispatch_write a actor correlation) token now =
      record_dispatch_authorization scrub_secrets a token now actor correlation
  perform (evidence_write e actor correlation) token now =
      record_evidence scrub_secrets e token now actor correlation
  perform (acceptance_write d target actor correlation) token now =
      record_acceptance scrub_secrets d token now target actor correlation
  perform (event_write event kind id payload actor correlation) token now =
      record_event scrub_secrets event kind id payload token now actor correlation
  perform (propose_write e actor correlation) token now =
      propose_envelope scrub_secrets fingerprint e token now actor correlation
  perform (approve_write id version actor) token now =
      mark_envelope_proposal_approved scrub_secrets id version token now actor
  perform (open_session_write s actor) token now =
      create_interaction_session scrub_secrets s token now actor
  perform (session_write id expected state revision actor event) token now =
      update_interaction_session scrub_secrets id expected state revision token now actor event
  perform (request_write r actor) token now =
      create_decision_request scrub_secrets r token now actor
  perform (resolve_write id outcome resolution restore actor) token now =
      resolve_decision_request scrub_secrets id outcome resolution restore token now actor
  perform (control_write kind id project state reason generation actor) token now =
      set_operational_control scrub_secrets kind id project state reason generation token now actor
