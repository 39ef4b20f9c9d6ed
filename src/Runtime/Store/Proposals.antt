-- ===== src/Runtime/Store/Proposals.antt =====
-- `propose_envelope` and `mark_envelope_proposal_approved` of src/artifex/runtime/store.py.
use artifex_dev.Prelude.{
  ℕ, ◌==◌, String, ◌&&◌, Option, none, some, List, [], ◌∷◌, ◌++◌, if◌then◌else◌, gets, modify,
  raise_if, lift, ◌>>=◌, ◌>>◌, str_eq,
}
use artifex_dev.Runtime.Actor.{
  ActorLike, ActorPrincipal, principal, actor_principal, require_action,
}
use artifex_dev.Runtime.Envelope.{ExecutionEnvelope}
use artifex_dev.Runtime.Json.{number, text, field, done}
use artifex_dev.Runtime.Store.Tables.{
  claims_approval, proposal_not_pending, integrity_error, EnvelopeProposal, FenceToken, Method,
  transaction, assert_fence, audit, changed,
}
use artifex_dev.Runtime.Store.Lease.{authorize}
use artifex_dev.Runtime.Store.Transitions.{is_some}

-- `envelope_proposal`; the two columns are the primary key.
unfoldable pub find_proposal : String → ℕ → List EnvelopeProposal → Option EnvelopeProposal
find_proposal id version [] = none
find_proposal id version (p ∷ ps) =
    if str_eq p.envelope_id id && p.version == version then some p else find_proposal id version ps

abbrev behind : EnvelopeProposal → Option (List EnvelopeProposal) → Option (List EnvelopeProposal)
behind p none = none
behind p (some ps) = some (p ∷ ps)

-- `UPDATE envelope_proposals SET state = 'APPROVED' WHERE .. AND state = 'PROPOSED'`
unfoldable pub approve_proposal :
    String → ℕ → List EnvelopeProposal → Option (List EnvelopeProposal)
approve_proposal id version [] = none
approve_proposal id version (p ∷ ps) =
    if str_eq p.envelope_id id && p.version == version
    then (if str_eq p.state "PROPOSED" then some (record p { state = "APPROVED" } ∷ ps) else none)
    else behind p (approve_proposal id version ps)

module _ (scrub_secrets : String → String) where
  unfoldable pub mark_envelope_proposal_approved :
      String → ℕ → FenceToken → ℕ → ActorLike → Method (Unit {0})
  mark_envelope_proposal_approved envelope_id version token now actor = transaction (do
    assert_fence token now
    updated ← gets (λ db.
        changed proposal_not_pending (λ ps. record db { proposals = ps })
          (approve_proposal envelope_id version db.proposals))
    db ← lift updated
    modify (λ _. db)
    audit scrub_secrets "ENVELOPE_PROPOSAL_APPROVED" actor "envelope" envelope_id now
        (field "version" (number version) done) none)

module _ (scrub_secrets : String → String) (fingerprint : ExecutionEnvelope → String) where
  -- The transaction of `propose_envelope`, by the principal that it has found.
  abbrev propose_by :
      ExecutionEnvelope → FenceToken → ℕ → ActorPrincipal → Option String → Method (Unit {0})
  propose_by e token now p correlation_id = transaction (do
    assert_fence token now
    refused ← gets (λ db. is_some (find_proposal e.envelope_id e.version db.proposals))
    raise_if integrity_error refused
    modify (λ db. record db {
      proposals =
          db.proposals
          ++ (record {
            envelope_id = e.envelope_id;
            version = e.version;
            project_id = e.project_id;
            fingerprint = fingerprint e;
            proposed_by = p.actor_id;
            payload = e;
            proposed_at = now;
            state = "PROPOSED";
          }
              ∷ []);
    })
    audit scrub_secrets "ENVELOPE_PROPOSED" (principal p) "envelope" e.envelope_id now
        (field "version" (number e.version) (field "fingerprint" (text (fingerprint e)) done))
        correlation_id)

  unfoldable pub propose_envelope :
      ExecutionEnvelope → FenceToken → ℕ → ActorLike → Option String → Method (Unit {0})
  propose_envelope e token now actor correlation_id = do
    raise_if claims_approval e.approved
    authorize (require_action (actor_principal actor) "envelope:propose" e.project_id now)
    propose_by e token now (actor_principal actor) correlation_id
