-- ===== src/Runtime/Store/Lease.antt =====
-- The coordinator's lease and the approval of envelopes: `acquire_coordinator`,
-- `renew_coordinator`, `put_envelope` and `envelope` of src/artifex/runtime/store.py.
use artifex_dev.Prelude.{
  ℕ, ◌+◌, ltb, ◌==◌, String, not, ◌&&◌, ◌||◌, Option, none, some, List, [], ◌∷◌, ◌++◌,
  if◌then◌else◌, Result, ok, raise, pure, fail, gets, modify, raise_if, ◌>>=◌, ◌>>◌, str_eq,
  is_blank,
}
use artifex_dev.Runtime.Actor.{
  ActorLike, ActorPrincipal, AuthorizationError, named, principal, actor_principal, require_action,
}
use artifex_dev.Runtime.Envelope.{ExecutionEnvelope, SupervisionLevel, l1, l2, l3, l4}
use artifex_dev.Runtime.Json.{number, text, field, done}
use artifex_dev.Runtime.Store.Tables.{
  bad_lease_request, coordinator_held, unapproved_envelope, immutable_envelope, unauthorized,
  FenceToken, Lease, EnvelopeRow, Method, transaction, assert_fence, audit,
}

-- `ActorPrincipal.require`, whose error passes through.
abbrev pub authorize : Result AuthorizationError (Unit {0}) → Method (Unit {0})
authorize (ok u) = pure tt
authorize (raise x) = fail (unauthorized x)

-- The next generation, or `none` if another holder's lease is still running.
unfoldable pub next_generation : Option Lease → String → ℕ → Option ℕ
next_generation none holder_id now = some 1
next_generation (some l) holder_id now =
    if ltb now l.expires_at && not (str_eq l.holder_id holder_id)
    then none
    else some (l.generation + 1)

abbrev level_name : SupervisionLevel → String
level_name l1 = "L1"
level_name l2 = "L2"
level_name l3 = "L3"
level_name l4 = "L4"

-- `SELECT .. FROM envelopes WHERE envelope_id = ? AND version = ?`
unfoldable pub find_envelope : String → ℕ → List EnvelopeRow → Option EnvelopeRow
find_envelope id version [] = none
find_envelope id version (r ∷ rs) =
    if str_eq r.payload.envelope_id id && r.payload.version == version
    then some r
    else find_envelope id version rs

-- `UPDATE coordinator_lease SET expires_at = ?`
abbrev extend : ℕ → Option Lease → Option Lease
extend expires_at none = none
extend expires_at (some l) = some (record l { expires_at = expires_at })

unfoldable pub renew_coordinator : FenceToken → ℕ → ℕ → Method FenceToken
renew_coordinator token now ttl_seconds = transaction (do
  assert_fence token now
  modify (λ db. record db { lease = extend (now + ttl_seconds) db.lease })
  pure (record token { expires_at = now + ttl_seconds }))

module _ (scrub_secrets : String → String) where
  -- The body of the transaction in `acquire_coordinator`.
  abbrev take_lease : String → ℕ → ℕ → Option ℕ → Method FenceToken
  take_lease holder_id now ttl_seconds none = fail coordinator_held
  take_lease holder_id now ttl_seconds (some generation) = do
    let expires_at = now + ttl_seconds
    let lease : Lease = record {
      holder_id = holder_id;
      generation = generation;
      expires_at = expires_at;
    }
    modify (λ db. record db { lease = some lease })
    audit scrub_secrets "COORDINATOR_ACQUIRED" (named holder_id) "coordinator" holder_id now
        (field "generation" (number generation) (field "expires_at" (number expires_at) done)) none
    pure (record { holder_id = holder_id; generation = generation; expires_at = expires_at })

  unfoldable pub acquire_coordinator : String → ℕ → ℕ → Method FenceToken
  acquire_coordinator holder_id now ttl_seconds = do
    raise_if bad_lease_request (is_blank holder_id || ltb ttl_seconds 1)
    transaction (do
      generation ← gets (λ db. next_generation db.lease holder_id now)
      take_lease holder_id now ttl_seconds generation)

  -- The approved envelope is new, or the one with its identity is the same.
  abbrev pub store_envelope :
      ExecutionEnvelope
      → String
      → ActorPrincipal
      → ℕ
      → Option String
      → Option EnvelopeRow
      → Method (Unit {0})
  store_envelope e fingerprint p now correlation_id (some existing) =
      raise_if immutable_envelope (not (str_eq existing.fingerprint fingerprint))
  store_envelope e fingerprint p now correlation_id none = do
    let row : EnvelopeRow = record {
      fingerprint = fingerprint;
      approved_by = p.actor_id;
      payload = e;
    }
    modify (λ db. record db { envelopes = db.envelopes ++ (row ∷ []) })
    audit scrub_secrets "ENVELOPE_APPROVED" (principal p) "envelope" e.envelope_id now
        (field "version" (number e.version) (
          field "fingerprint" (text fingerprint) (
            field "project_id" (text e.project_id)
              (field "supervision_level" (text (level_name e.supervision_level)) done))))
        correlation_id

  abbrev approver : ExecutionEnvelope → Option ActorLike → ActorPrincipal
  approver e none = actor_principal (named e.actor_id)
  approver e (some a) = actor_principal a

  -- `put_envelope`, with the fingerprint of the envelope: a hash of its JSON.
  unfoldable pub put_envelope :
      (ExecutionEnvelope → String)
      → ExecutionEnvelope
      → FenceToken
      → ℕ
      → Option ActorLike
      → Option String
      → Method (Unit {0})
  put_envelope fingerprint e token now actor correlation_id = do
    raise_if unapproved_envelope (not e.approved)
    authorize (require_action (approver e actor) "envelope:approve" e.project_id now)
    transaction (do
      assert_fence token now
      existing ← gets (λ db. find_envelope e.envelope_id e.version db.envelopes)
      store_envelope e (fingerprint e) (approver e actor) now correlation_id existing)
