-- ===== src/Runtime/Store/Writes/Governing.antt =====
-- The writes of proposals, sessions, decision requests and controls are guarded.
use artifex_dev.Prelude.{
  ℕ, String, ◌≡◌, Bool, true, false, Option, none, some, [], ◌∷◌, ok, arith, Dict,
}
use artifex_dev.Runtime.Actor.{ActorLike}
use artifex_dev.Runtime.Envelope.{ExecutionEnvelope}
use artifex_dev.Runtime.Store.Tables.{SessionRow, DecisionRequest, FenceToken, Db}
use artifex_dev.Runtime.Store.Proposals.{propose_envelope, mark_envelope_proposal_approved}
use artifex_dev.Runtime.Store.Sessions.{create_interaction_session, update_interaction_session}
use artifex_dev.Runtime.Store.Requests.{
  block_workstream, resume_workstream, close_request, block_workstreams, create_decision_request,
  resume_workstreams, resume_if, resolve_open, resolve_decision_request,
}
use artifex_dev.Runtime.Store.Controls.{set_operational_control}
use artifex_dev.Runtime.Store.Writes.Growth.{
  Adds, IsGuarded, adds_rules, IsGuarded-raise_if, IsGuarded-authorize, IsGuarded-transaction,
  Adds-bind, Adds-gets, Adds-raise_if, Adds-audit, Adds-install, Adds-fail, Adds-pure,
}

block-keeps :
    (project id expected : String) (now : ℕ) (db later : Db)
    → block_workstream project id expected now db ≡ ok later
    → (later.lease ≡ db.lease) × (later.audit ≡ db.audit)
unfolding block_workstream
block-keeps project id expected now db later h = ground arith

resume-keeps :
    (id target : String) (now : ℕ) (db later : Db)
    → resume_workstream id target now db ≡ ok later
    → (later.lease ≡ db.lease) × (later.audit ≡ db.audit)
unfolding resume_workstream
resume-keeps id target now db later h = ground arith

close-keeps :
    (id outcome resolution by : String) (now : ℕ) (db later : Db)
    → close_request id outcome resolution by now db ≡ ok later
    → (later.lease ≡ db.lease) × (later.audit ≡ db.audit)
unfolding close_request
close-keeps id outcome resolution by now db later h = ground arith

module _ (scrub_secrets : String → String) (now : ℕ) where
  block_workstreams-Adds :
      (project id : String) (states : Dict String) (actor : ActorLike)
      → Adds scrub_secrets (block_workstreams scrub_secrets project id states now actor)
  unfolding block_workstreams
  block_workstreams-Adds project id [] actor = Adds-pure scrub_secrets tt
  block_workstreams-Adds project id ((workstream, expected) ∷ rest) actor =
      Adds-install scrub_secrets _ _ (block-keeps project workstream expected now) (
        Adds-bind scrub_secrets _ _ (Adds-audit scrub_secrets _ _ _ _ _ _ _)
          (λ _. block_workstreams-Adds project id rest actor))

  resume_workstreams-Adds :
      (id : String) (states : Dict String) (actor : ActorLike)
      → Adds scrub_secrets (resume_workstreams scrub_secrets id states now actor)
  unfolding resume_workstreams
  resume_workstreams-Adds id [] actor = Adds-pure scrub_secrets tt
  resume_workstreams-Adds id ((workstream, target) ∷ rest) actor =
      Adds-install scrub_secrets _ _ (resume-keeps workstream target now) (
        Adds-bind scrub_secrets _ _ (Adds-audit scrub_secrets _ _ _ _ _ _ _)
          (λ _. resume_workstreams-Adds id rest actor))

  resume_if-Adds :
      (b : Bool) (id : String) (states : Dict String) (actor : ActorLike)
      → Adds scrub_secrets (resume_if scrub_secrets b id states now actor)
  resume_if-Adds false id states actor = Adds-pure scrub_secrets tt
  resume_if-Adds true id states actor = resume_workstreams-Adds id states actor

  resolve_open-Adds :
      (row : Option DecisionRequest) (id outcome resolution : String) (b : Bool) (actor : ActorLike)
      → Adds scrub_secrets (resolve_open scrub_secrets row id outcome resolution b now actor)
  unfolding resolve_open
  resolve_open-Adds none id outcome resolution b actor = Adds-fail scrub_secrets _
  resolve_open-Adds (some r) id outcome resolution b actor =
      Adds-bind scrub_secrets _ _ (resume_if-Adds b id r.blocked_from_states actor) (λ _.
        Adds-install scrub_secrets _ _ (close-keeps id outcome resolution _ now)
          (Adds-audit scrub_secrets _ _ _ _ _ _ _))

module _ (scrub_secrets : String → String) (token : FenceToken) (now : ℕ) where
  pub request-IsGuarded :
      (r : DecisionRequest) (actor : ActorLike)
      → IsGuarded scrub_secrets token now (create_decision_request scrub_secrets r token now actor)
  unfolding create_decision_request
  request-IsGuarded r actor = IsGuarded-raise_if scrub_secrets token now _ _ _ (
      IsGuarded-transaction scrub_secrets token now _ (
        Adds-bind scrub_secrets _ _ (Adds-raise_if scrub_secrets _ _) (λ _.
          Adds-bind scrub_secrets _ _
            (block_workstreams-Adds scrub_secrets now _ _ r.blocked_from_states actor)
            (λ _. search adds_rules))))

  pub resolve-IsGuarded :
      (id outcome resolution : String) (b : Bool) (actor : ActorLike)
      → IsGuarded scrub_secrets token now
          (resolve_decision_request scrub_secrets id outcome resolution b token now actor)
  unfolding resolve_decision_request
  resolve-IsGuarded id outcome resolution b actor =
      IsGuarded-raise_if scrub_secrets token now _ _ _ (
        IsGuarded-transaction scrub_secrets token now _ (
          Adds-bind scrub_secrets _ _ (Adds-gets scrub_secrets _)
            (λ row. resolve_open-Adds scrub_secrets now row id outcome resolution b actor)))

  pub open_session-IsGuarded :
      (s : SessionRow) (actor : ActorLike)
      → IsGuarded scrub_secrets token now
          (create_interaction_session scrub_secrets s token now actor)
  unfolding create_interaction_session
  open_session-IsGuarded s actor =
      IsGuarded-raise_if scrub_secrets token now _ _ _
        (IsGuarded-transaction scrub_secrets token now _ (search adds_rules))

  pub session-IsGuarded :
      (id expected state : String) (revision : ℕ) (actor : ActorLike) (event : String)
      → IsGuarded scrub_secrets token now (
          update_interaction_session scrub_secrets id expected state revision token now actor event)
  unfolding update_interaction_session
  session-IsGuarded id expected state revision actor event =
      IsGuarded-raise_if scrub_secrets token now _ _ _ (
        IsGuarded-transaction scrub_secrets token now _ (
          Adds-install scrub_secrets _ _ (λ db later h. ground arith)
            (Adds-audit scrub_secrets _ _ _ _ _ _ _)))

  pub approve-IsGuarded :
      (id : String) (version : ℕ) (actor : ActorLike)
      → IsGuarded scrub_secrets token now
          (mark_envelope_proposal_approved scrub_secrets id version token now actor)
  unfolding mark_envelope_proposal_approved
  approve-IsGuarded id version actor = IsGuarded-transaction scrub_secrets token now _ (
      Adds-install scrub_secrets _ _ (λ db later h. ground arith)
        (Adds-audit scrub_secrets _ _ _ _ _ _ _))

  pub propose-IsGuarded :
      (fingerprint : ExecutionEnvelope → String) (e : ExecutionEnvelope) (actor : ActorLike)
      (correlation : Option String)
      → IsGuarded scrub_secrets token now
          (propose_envelope scrub_secrets fingerprint e token now actor correlation)
  unfolding propose_envelope
  propose-IsGuarded fingerprint e actor correlation =
      IsGuarded-raise_if scrub_secrets token now _ _ _ (
        IsGuarded-authorize scrub_secrets token now _ _
          (IsGuarded-transaction scrub_secrets token now _ (search adds_rules)))

  pub control-IsGuarded :
      (kind id : String) (project : Option String) (state reason : String) (generation : ℕ)
      (actor : ActorLike)
      → IsGuarded scrub_secrets token now (
          set_operational_control scrub_secrets kind id project state reason generation token now
            actor)
  unfolding set_operational_control
  control-IsGuarded kind id project state reason generation actor =
      IsGuarded-raise_if scrub_secrets token now _ _ _
        (IsGuarded-transaction scrub_secrets token now _ (search adds_rules))
