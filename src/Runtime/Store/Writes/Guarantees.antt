-- ===== src/Runtime/Store/Writes/Guarantees.antt =====
-- What all writes of the store have in common.
use artifex_dev.Prelude.{
  ℕ, String, ◌≡◌, refl, true, Option, none, some, List, [], ◌∷◌, ok, raise, arith,
}
use artifex_dev.Runtime.Actor.{ActorLike, ActorPrincipal}
use artifex_dev.Runtime.Json.{Fields}
use artifex_dev.Runtime.Envelope.{ExecutionEnvelope}
use artifex_dev.Runtime.Store.Tables.{
  StoreError, AcceptanceDecision, DispatchAuthorization, EvidenceRecord, EnvelopeRow, FenceToken,
  Db, holds,
}
use artifex_dev.Runtime.Store.Lease.{put_envelope, store_envelope}
use artifex_dev.Runtime.Store.Transitions.{
  Row, workstream_row, Change, Target, workstreams, add_row, update_row, insert, apply_change,
  apply_changes, transition_batch, set_workspace_state, target_of, apply_to,
}
use artifex_dev.Runtime.Store.Records.{
  record_dispatch_authorization, record_evidence, record_acceptance, record_event,
}
use artifex_dev.Runtime.Store.Writes.{
  Write, envelope_write, insert_write, batch_write, workspace_write, dispatch_write, evidence_write,
  acceptance_write, event_write, propose_write, approve_write, open_session_write, session_write,
  request_write, resolve_write, control_write, perform,
}
use artifex_dev.Runtime.Store.Writes.Growth.{
  Extends, Adds, IsGuarded, adds_rules, IsGuarded-raise_if, IsGuarded-authorize,
  IsGuarded-transaction, Adds-bind, Adds-gets, Adds-raise_if, Adds-audit, Adds-install, Adds-fail,
  Adds-pure,
}
use artifex_dev.Runtime.Store.Writes.Governing.{
  request-IsGuarded, resolve-IsGuarded, open_session-IsGuarded, session-IsGuarded,
  approve-IsGuarded, propose-IsGuarded, control-IsGuarded,
}

add_row-lease : (row : Row) (db : Db) → (add_row row db).lease ≡ db.lease
unfolding add_row
add_row-lease (workstream_row w) db = refl
add_row-lease _ db = refl

add_row-audit : (row : Row) (db : Db) → (add_row row db).audit ≡ db.audit
unfolding add_row
add_row-audit (workstream_row w) db = refl
add_row-audit _ db = refl

update_row-keeps :
    (t : Target) (c : Change) (now : ℕ) (db later : Db)
    → update_row t c now db ≡ ok later
    → (later.lease ≡ db.lease) × (later.audit ≡ db.audit)
unfolding update_row
update_row-keeps workstreams c now db later h = ground arith
update_row-keeps _ c now db later h = ground arith

module _ (scrub_secrets : String → String) (fingerprint : ExecutionEnvelope → String)
    (token : FenceToken) (now : ℕ) where
  insert-IsGuarded :
      (row : Row) (actor : ActorLike) (event : String)
      → IsGuarded scrub_secrets token now (insert scrub_secrets row token now actor event)
  unfolding insert
  insert-IsGuarded row actor event = IsGuarded-raise_if scrub_secrets token now _ _ _ (
      IsGuarded-transaction scrub_secrets token now _
        (search (adds_rules, add_row-lease, add_row-audit)))

  apply_change-Adds :
      (c : Change) (actor : ActorLike) → Adds scrub_secrets (apply_change scrub_secrets c now actor)
  unfolding apply_change
  apply_change-Adds c actor = by_target (target_of c.table c.id_column)
    where
      by_target : (t : Option Target) → Adds scrub_secrets (apply_to scrub_secrets t c now actor)
      by_target none = Adds-fail scrub_secrets _
      by_target (some t) =
          Adds-install scrub_secrets _ _ (update_row-keeps t c now)
            (Adds-audit scrub_secrets _ _ _ _ _ _ _)

  apply_changes-Adds :
      (cs : List Change) (actor : ActorLike)
      → Adds scrub_secrets (apply_changes scrub_secrets cs now actor)
  unfolding apply_changes
  apply_changes-Adds [] actor = Adds-pure scrub_secrets tt
  apply_changes-Adds (c ∷ cs) actor =
      Adds-bind scrub_secrets _ _ (apply_change-Adds c actor) (λ _. apply_changes-Adds cs actor)

  batch-IsGuarded :
      (cs : List Change) (actor : ActorLike)
      → IsGuarded scrub_secrets token now (transition_batch scrub_secrets cs token now actor)
  unfolding transition_batch
  batch-IsGuarded cs actor = IsGuarded-raise_if scrub_secrets token now _ _ _ (
      IsGuarded-raise_if scrub_secrets token now _ _ _
        (IsGuarded-transaction scrub_secrets token now _ (apply_changes-Adds cs actor)))

  workspace-IsGuarded :
      (id expected target : String) (actor : ActorLike)
      → IsGuarded scrub_secrets token now
          (set_workspace_state scrub_secrets id expected target token now actor)
  unfolding set_workspace_state
  workspace-IsGuarded id expected target actor = IsGuarded-raise_if scrub_secrets token now _ _ _ (
      IsGuarded-transaction scrub_secrets token now _ (
        Adds-install scrub_secrets _ _ (λ db later h. ground arith)
          (Adds-audit scrub_secrets _ _ _ _ _ _ _)))

  dispatch-IsGuarded :
      (a : DispatchAuthorization) (actor : ActorLike) (correlation : Option String)
      → IsGuarded scrub_secrets token now
          (record_dispatch_authorization scrub_secrets a token now actor correlation)
  unfolding record_dispatch_authorization
  dispatch-IsGuarded a actor correlation =
      IsGuarded-transaction scrub_secrets token now _ (search adds_rules)

  evidence-IsGuarded :
      (e : EvidenceRecord) (actor : ActorLike) (correlation : Option String)
      → IsGuarded scrub_secrets token now
          (record_evidence scrub_secrets e token now actor correlation)
  unfolding record_evidence
  evidence-IsGuarded e actor correlation =
      IsGuarded-transaction scrub_secrets token now _ (search adds_rules)

  event-IsGuarded :
      (event kind id : String) (payload : Fields) (actor : ActorLike) (correlation : Option String)
      → IsGuarded scrub_secrets token now
          (record_event scrub_secrets event kind id payload token now actor correlation)
  unfolding record_event
  event-IsGuarded event kind id payload actor correlation =
      IsGuarded-raise_if scrub_secrets token now _ _ _
        (IsGuarded-transaction scrub_secrets token now _ (search adds_rules))

  acceptance-IsGuarded :
      (d : AcceptanceDecision) (target : String) (actor : ActorLike) (correlation : Option String)
      → IsGuarded scrub_secrets token now
          (record_acceptance scrub_secrets d token now target actor correlation)
  unfolding record_acceptance
  acceptance-IsGuarded d target actor correlation =
      IsGuarded-raise_if scrub_secrets token now _ _ _ (
        IsGuarded-transaction scrub_secrets token now _
          (search (adds_rules, update_row-keeps) depth 9))

  store_envelope-Adds :
      (e : ExecutionEnvelope) (p : ActorPrincipal) (correlation : Option String)
      (o : Option EnvelopeRow)
      → Adds scrub_secrets (store_envelope scrub_secrets e (fingerprint e) p now correlation o)
  store_envelope-Adds e p correlation (some row) = Adds-raise_if scrub_secrets _ _
  store_envelope-Adds e p correlation none = search adds_rules

  envelope-IsGuarded :
      (e : ExecutionEnvelope) (actor : Option ActorLike) (correlation : Option String)
      → IsGuarded scrub_secrets token now
          (put_envelope scrub_secrets fingerprint e token now actor correlation)
  unfolding put_envelope
  envelope-IsGuarded e actor correlation = IsGuarded-raise_if scrub_secrets token now _ _ _ (
      IsGuarded-authorize scrub_secrets token now _ _ (
        IsGuarded-transaction scrub_secrets token now _ (
          Adds-bind scrub_secrets _ _ (Adds-gets scrub_secrets _)
            (store_envelope-Adds e _ correlation))))

  perform-IsGuarded :
      (w : Write)
      → IsGuarded scrub_secrets token now (perform scrub_secrets fingerprint w token now)
  unfolding perform
  perform-IsGuarded (envelope_write e actor correlation) = envelope-IsGuarded e actor correlation
  perform-IsGuarded (insert_write row actor event) = insert-IsGuarded row actor event
  perform-IsGuarded (batch_write changes actor) = batch-IsGuarded changes actor
  perform-IsGuarded (workspace_write id expected target actor) =
      workspace-IsGuarded id expected target actor
  perform-IsGuarded (dispatch_write a actor correlation) = dispatch-IsGuarded a actor correlation
  perform-IsGuarded (evidence_write e actor correlation) = evidence-IsGuarded e actor correlation
  perform-IsGuarded (acceptance_write d target actor correlation) =
      acceptance-IsGuarded d target actor correlation
  perform-IsGuarded (event_write event kind id payload actor correlation) =
      event-IsGuarded event kind id payload actor correlation
  perform-IsGuarded (propose_write e actor correlation) =
      propose-IsGuarded scrub_secrets token now fingerprint e actor correlation
  perform-IsGuarded (approve_write id version actor) =
      approve-IsGuarded scrub_secrets token now id version actor
  perform-IsGuarded (open_session_write s actor) =
      open_session-IsGuarded scrub_secrets token now s actor
  perform-IsGuarded (session_write id expected state revision actor event) =
      session-IsGuarded scrub_secrets token now id expected state revision actor event
  perform-IsGuarded (request_write r actor) = request-IsGuarded scrub_secrets token now r actor
  perform-IsGuarded (resolve_write id outcome resolution b actor) =
      resolve-IsGuarded scrub_secrets token now id outcome resolution b actor
  perform-IsGuarded (control_write kind id project state reason generation actor) =
      control-IsGuarded scrub_secrets token now kind id project state reason generation actor

  -- A write that raises leaves the whole database as it was: nothing of a batch is kept.
  pub write_atomic :
      (w : Write) (db : Db) (x : StoreError)
      → (perform scrub_secrets fingerprint w token now db).0 ≡ raise x
      → (perform scrub_secrets fingerprint w token now db).1 ≡ db
  write_atomic w = (perform-IsGuarded w).atomic

  -- A write, whether it returns or raises, keeps the lease, and the audit that it leaves is the one
  -- that it found with further rows behind it. In the payload of each, a field holds "[REDACTED]" if
  -- its case-folded key has "secret", "password", "token", "api_key" or "credential_value" in it,
  -- and every other text was scrubbed.
  pub write-Extends :
      (w : Write) (db : Db)
      → Extends scrub_secrets db (perform scrub_secrets fingerprint w token now db).1
  write-Extends w = (perform-IsGuarded w).extends

  pub write_fenced :
      (w : Write) (db : Db)
      → (perform scrub_secrets fingerprint w token now db).0 ≡ ok tt
      → holds db.lease token now ≡ true
  write_fenced w = (perform-IsGuarded w).fenced
