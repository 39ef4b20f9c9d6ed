-- ===== src/Runtime/Store/Fencing.antt =====
-- A coordinator that lost the lease cannot write any more.
use artifex_dev.Prelude.{
  ℕ, ◌+◌, ◌≤◌, String, ◌≡◌, inl, inr, true, Option, none, some, List, [], ◌∷◌, ok, raise, arith,
  ◌>>=◌, eq_iff, Result-cases,
}
use artifex_dev.Runtime.Envelope.{ExecutionEnvelope}
use artifex_dev.Runtime.Store.Tables.{
  StoreError, FenceToken, Lease, Db, holds, transaction, audit, assert_fence,
}
use artifex_dev.Runtime.Store.Lease.{acquire_coordinator, renew_coordinator, next_generation}
use artifex_dev.Runtime.Store.Writes.{Write, perform}
use artifex_dev.Runtime.Store.Writes.Guarantees.{write-Extends, write_fenced, write_atomic}

-- The lease of this holder and generation, whatever its expiry.
abbrev pub LeaseIs : Option Lease → String → ℕ → Type 0
LeaseIs none holder generation = ⊥
LeaseIs (some l) holder generation = (l.holder_id ≡ holder) × (l.generation ≡ generation)

-- What happens to a store after an acquisition: writes and renewals under any tokens, and further
-- acquisitions by anyone.
pub data Event : Type 0 where
  write : Write → FenceToken → ℕ → Event
  renewal : FenceToken → ℕ → ℕ → Event
  acquisition : String → ℕ → ℕ → Event

abbrev pub generation_of : Option Lease → ℕ
generation_of none = 0
generation_of (some l) = l.generation

module _ (scrub_secrets : String → String) (fingerprint : ExecutionEnvelope → String) where
  unfoldable pub happen : Event → Db → Db
  happen (write w token now) db = (perform scrub_secrets fingerprint w token now db).1
  happen (renewal token now ttl) db = (renew_coordinator token now ttl db).1
  happen (acquisition holder now ttl) db = (acquire_coordinator scrub_secrets holder now ttl db).1

  unfoldable pub history : List Event → Db → Db
  history [] db = db
  history (e ∷ es) db = history es (happen e db)

  renew-generation :
      (token : FenceToken) (now ttl : ℕ) (db : Db)
      → generation_of (renew_coordinator token now ttl db).1.lease ≡ generation_of db.lease
  unfolding renew_coordinator transaction assert_fence ◌>>=◌
  renew-generation token now ttl db = ground arith

  acquire-generation :
      (holder : String) (now ttl : ℕ) (db : Db)
      → generation_of db.lease
        ≤ generation_of (acquire_coordinator scrub_secrets holder now ttl db).1.lease
  unfolding acquire_coordinator next_generation transaction audit ◌>>=◌
  acquire-generation holder now ttl db = ground arith

  happen-generation :
      (e : Event) (db : Db) → generation_of db.lease ≤ generation_of (happen e db).lease
  unfolding happen
  happen-generation (write w token now) db =
      rw (write-Extends scrub_secrets fingerprint token now w db).lease (omega arith)
  happen-generation (renewal token now ttl) db =
      rw (renew-generation token now ttl db) (omega arith)
  happen-generation (acquisition holder now ttl) db = acquire-generation holder now ttl db

  history-generation :
      (es : List Event) (db : Db) → generation_of db.lease ≤ generation_of (history es db).lease
  unfolding history
  history-generation [] db = omega arith
  history-generation (e ∷ es) db =
      omega (arith, happen-generation e db, history-generation es (happen e db))

  -- A granted acquisition gives the caller the generation after the one in the lease, and writes it.
  pub acquire-grants :
      (holder : String) (now ttl : ℕ) (db : Db) (token : FenceToken)
      → (acquire_coordinator scrub_secrets holder now ttl db).0 ≡ ok token
      → (token.holder_id ≡ holder)
        × (token.generation ≡ generation_of db.lease + 1)
        × LeaseIs
            (acquire_coordinator scrub_secrets holder now ttl db).1.lease
            holder
            (generation_of db.lease + 1)
  unfolding acquire_coordinator next_generation transaction audit ◌>>=◌
  acquire-grants holder now ttl db token h = ground arith

  held-LeaseIs :
      (l : Option Lease) (token : FenceToken) (now : ℕ)
      → holds l token now ≡ true
      → LeaseIs l token.holder_id token.generation
  held-LeaseIs none token now h = absurd (ground arith)
  held-LeaseIs (some l) token now h = ground (arith, eq_iff l.holder_id token.holder_id)

  generation-LeaseIs : (l : Option Lease) (h : String) (g : ℕ) → LeaseIs l h g → generation_of l ≡ g
  generation-LeaseIs none h g a = absurd a
  generation-LeaseIs (some l) h g a = a.1

  write_refused :
      (w : Write) (token : FenceToken) (now : ℕ) (db : Db)
      → ¬ (holds db.lease token now ≡ true)
      → (x : StoreError) × (perform scrub_secrets fingerprint w token now db ≡ (raise x, db))
  write_refused w token now db stale =
      elim (Result-cases (perform scrub_secrets fingerprint w token now db).0) [
        | inl (_, done) ↦
            absurd (stale (write_fenced scrub_secrets fingerprint token now w db done))
        | inr (x, raised) ↦
            (x, λ i. (raised i, write_atomic scrub_secrets fingerprint token now w db x raised i))
      ]

  -- Once anyone, the same holder included, has acquired the lease, a token that was good before is
  -- refused for ever: after any writes and renewals under any tokens and any further acquisitions
  -- by anyone, its own holder included, no write with it returns, at any time, and the write
  -- changes nothing.
  pub fenced_off :
      (holder : String) (now ttl : ℕ) (db : Db) (old new : FenceToken) (before : ℕ)
      → holds db.lease old before ≡ true
      → (acquire_coordinator scrub_secrets holder now ttl db).0 ≡ ok new
      → (es : List Event) (w : Write) (later : ℕ)
      → (x : StoreError) × (perform scrub_secrets fingerprint w old later
            (history es (acquire_coordinator scrub_secrets holder now ttl db).1)
          ≡ (raise x, history es (acquire_coordinator scrub_secrets holder now ttl db).1))
  fenced_off holder now ttl db old new before good granted es w later =
      write_refused w old later _ (λ h.
        let (_, _, now_new) = acquire-grants holder now ttl db new granted in
        let raised = generation-LeaseIs _ _ _ now_new in
        let kept = history-generation es (acquire_coordinator scrub_secrets holder now ttl db).1 in
        let still = generation-LeaseIs _ _ _ (held-LeaseIs _ old later h) in
        let was = generation-LeaseIs db.lease _ _ (held-LeaseIs db.lease old before good) in
        omega arith)
