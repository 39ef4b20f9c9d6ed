-- ===== src/Runtime/Acceptance/Evidence.antt =====
-- An ACCEPT has evidence for every gate that is not an authority's, and the decider is not the dispatcher.
use artifex_dev.Prelude.{
  ℕ, String, ◌≡◌, refl, inl, inr, none, some, Bool, true, false, Bool-cases, Option, Option-cases,
  List, [], ◌∷◌, ok, arith, lookup, contains, str_eq, eq_iff, ◌>>=◌, Dict,
}
use artifex_dev.Runtime.Actor.{ActorLike, actor_principal, require_action}
use artifex_dev.Runtime.Store.Tables.{
  FenceToken, Db, EnvelopeRow, EvidenceRecord, AcceptanceDecision, Attempt,
}
use artifex_dev.Runtime.Store.Lease.{find_envelope}
use artifex_dev.Runtime.Store.Records.{dispatch_authorization, evidence}
use artifex_dev.Runtime.Coordinator.Base.{Found, is_forbidden}
use artifex_dev.Runtime.Coordinator.Creation.{attempts_in}
use artifex_dev.Runtime.Coordinator.Dispatch.Scope.{IsSubset-contains}
use artifex_dev.Runtime.Acceptance.Latest.{
  IsDecider, IsLatest, IsByOther, allowed-IsDecider, latest_finished-IsLatest, other-IsByOther,
}
use artifex_dev.Runtime.Acceptance.{
  AcceptanceOutcome, accept, stored, latest_finished, is_own_dispatch, is_authority_gate, own_gates,
  is_bound, all_bound, gates_of, validate_evidence, check_outcome, decide,
}

-- A passed record about this attempt of the job, made under this envelope and baseline.
pub record Binds (row : EnvelopeRow) (job_id attempt_id : String) (r : EvidenceRecord)
    : Type 0 where
  pub job : r.project_job_id ≡ job_id
  pub attempt : r.attempt_id ≡ attempt_id
  pub envelope : r.envelope_fingerprint ≡ row.fingerprint
  pub baseline : r.baseline_revision ≡ row.payload.baseline_revision
  pub passed : r.passed ≡ true

-- One of the listed evidence records is there, for this gate, and binds.
abbrev pub Covers :
    EnvelopeRow → String → String → List String → Dict EvidenceRecord → String → Type 0
Covers row job_id attempt_id ids records gate =
    (id : String) × (contains id ids ≡ true)
    × Found (lookup id records) λ r. (r.gate ≡ gate) × Binds row job_id attempt_id r

bound-Binds :
    (row : EnvelopeRow) (job_id attempt_id : String) (r : EvidenceRecord)
    → is_bound row job_id attempt_id r ≡ true
    → Binds row job_id attempt_id r
bound-Binds row job_id attempt_id r h = record {
  job = grind (arith, eq_iff);
  attempt = grind (arith, eq_iff);
  envelope = grind (arith, eq_iff);
  baseline = ground arith;
  passed = ground arith;
}

own_gates-contains :
    (g : String) (gs : List String)
    → contains g gs ≡ true
    → is_authority_gate g ≡ false
    → contains g (own_gates gs) ≡ true
unfolding own_gates contains
own_gates-contains g [] m own = absurd (ground arith)
own_gates-contains g (k ∷ gs) m own = elim (Bool-cases (str_eq k g)) [
  | inl same ↦ grind (arith, eq_iff)
  | inr other ↦ let rest = own_gates-contains g gs (ground arith) own in ground arith
]

covered :
    (row : EnvelopeRow) (job_id attempt_id gate : String) (ids : List String)
    (d : Dict EvidenceRecord)
    → all_bound row job_id attempt_id (evidence ids d) ≡ true
    → contains gate (gates_of (evidence ids d)) ≡ true
    → Covers row job_id attempt_id ids d gate
unfolding evidence all_bound gates_of contains
covered row job_id attempt_id gate [] d bound m = absurd (ground arith)
covered row job_id attempt_id gate (id ∷ ids) d bound m = elim (Option-cases (lookup id d)) [
  | inl missing ↦
      let (k, listed, found) =
        covered row job_id attempt_id gate ids d (ground arith) (ground arith) in
      (k, ground arith, found)
  | inr (r, there) ↦ elim (Bool-cases (str_eq r.gate gate)) [
    | inl same ↦ (
      id,
      grind (arith, eq_iff),
      rw there ((eq_iff r.gate gate).0 same, bound-Binds row job_id attempt_id r (ground arith)),
    )
    | inr other ↦
        let (k, listed, found) =
          covered row job_id attempt_id gate ids d (ground arith) (ground arith) in
        (k, ground arith, found)
  ]
]

validate-Covers :
    (row : EnvelopeRow) (job_id attempt_id : String) (ids : List String) (d : Dict EvidenceRecord)
    → validate_evidence (evidence ids d) ids job_id attempt_id row ≡ true
    → (gate : String) → contains gate row.payload.required_gates ≡ true
    → is_authority_gate gate ≡ false
    → Covers row job_id attempt_id ids d gate
unfolding validate_evidence
validate-Covers row job_id attempt_id ids d h gate listed own =
    covered row job_id attempt_id gate ids d (ground arith)
      (IsSubset-contains _ _ (ground arith) gate (own_gates-contains gate _ listed own))

Found-map :
    {A : Type 0} {P Q : A → Type 0} (o : Option A)
    → ((a : A) → o ≡ some a → P a → Q a)
    → Found o P
    → Found o Q
Found-map none f h = absurd h
Found-map (some a) f h = f a refl h

Found-there :
    {A : Type 0} {P : A → Type 0} (o : Option A) → Found o P → (a : A) × (o ≡ some a) × P a
Found-there none h = absurd h
Found-there (some a) h = (a, refl, h)

module _ (scrub_secrets : String → String) where
  -- When an ACCEPT returns for a run whose envelope asks for durable evidence, the job has a latest
  -- FINISHED attempt, and each required gate, except for the authorities' own ("acceptance",
  -- "acceptance-authority" and "project-authority" in any case), is covered by one of the listed
  -- evidence records: it is stored, passed, and made for this gate, this job, this attempt and the
  -- fingerprint and baseline of the envelope.
  pub accept_covered :
      (id job_id : String) (valid : Bool) (token : FenceToken) (now : ℕ) (actor : ActorLike)
      (reason : String) (ids : List String) (correlation : Option String) (db : Db)
      (d : AcceptanceDecision)
      → (decide scrub_secrets id job_id accept valid token now actor reason ids correlation db).0
        ≡ ok d
      → Found (lookup job_id db.project_jobs) λ job.
        (job.state ≡ "FINISHED")
        × Found (lookup job.run_id db.runs) λ run.
          Found (find_envelope run.envelope_id run.envelope_version db.envelopes) λ row.
            Found
              (latest_finished (attempts_in db.project_jobs job.run_id job_id db.attempts))
              λ attempt.
                row.payload.require_durable_evidence ≡ true
                → (gate : String) → contains gate row.payload.required_gates ≡ true
                → is_authority_gate gate ≡ false
                → Covers row job_id attempt.attempt_id ids db.evidence gate
  unfolding decide stored check_outcome ◌>>=◌
  accept_covered id job_id valid token now actor reason ids correlation db d h =
      grind (arith, eq_iff, validate-Covers)

  decide_checks :
      (id job_id : String) (outcome : AcceptanceOutcome) (valid : Bool) (token : FenceToken)
      (now : ℕ) (actor : ActorLike) (reason : String) (ids : List String)
      (correlation : Option String) (db : Db) (d : AcceptanceDecision)
      → (decide scrub_secrets id job_id outcome valid token now actor reason ids correlation db).0
        ≡ ok d
      → Found (lookup job_id db.project_jobs) λ job. Found (lookup job.run_id db.runs) λ run.
        (is_forbidden actor ≡ false)
        × (require_action (actor_principal actor) "acceptance:decide" run.project_id now ≡ ok tt)
        × Found
            (latest_finished (attempts_in db.project_jobs job.run_id job_id db.attempts))
            λ attempt.
              is_own_dispatch
                (dispatch_authorization attempt.attempt_id db)
                (actor_principal actor).actor_id
              ≡ false
  unfolding decide stored ◌>>=◌
  decide_checks id job_id outcome valid token now actor reason ids correlation db d h = ground arith

  -- Whoever decides has authenticated "acceptance:decide" authority in the run's project, is given
  -- by name or is a user, an Artifex service or an agent, and did not dispatch the attempt that is
  -- decided: a FINISHED attempt of the job with the greatest ordinal of all its FINISHED attempts.
  pub decide_separated :
      (id job_id : String) (outcome : AcceptanceOutcome) (valid : Bool) (token : FenceToken)
      (now : ℕ) (actor : ActorLike) (reason : String) (ids : List String)
      (correlation : Option String) (db : Db) (d : AcceptanceDecision)
      → (decide scrub_secrets id job_id outcome valid token now actor reason ids correlation db).0
        ≡ ok d
      → Found (lookup job_id db.project_jobs) λ job. Found (lookup job.run_id db.runs) λ run.
        IsDecider actor
        × (require_action (actor_principal actor) "acceptance:decide" run.project_id now ≡ ok tt)
        × ((attempt : Attempt) × IsLatest
              (attempts_in db.project_jobs job.run_id job_id db.attempts)
              attempt
            × IsByOther
                (dispatch_authorization attempt.attempt_id db)
                (actor_principal actor).actor_id)
  decide_separated id job_id outcome valid token now actor reason ids correlation db d h =
      Found-map (lookup job_id db.project_jobs)
        (λ job _. Found-map (lookup job.run_id db.runs) (λ run _ (allowed, authority, found).
          let (attempt, latest, other) = Found-there _ found in
          (
            allowed-IsDecider actor allowed,
            authority,
            (attempt, latest_finished-IsLatest _ attempt latest, other-IsByOther _ _ other),
          )))
        (decide_checks id job_id outcome valid token now actor reason ids correlation db d h)
