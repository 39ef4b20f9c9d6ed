-- ===== src/Validation/Payload/RoundTrip.antt =====
-- Decoding undoes encoding.
use artifex_dev.Prelude.{
  String, ◌≡◌, ◌↔◌, refl, ap, eq_iff, eq_refl, true, some, List, [], ◌∷◌, ok, All, Dict, lookup,
  arith,
}
use artifex_dev.Validation.Entry.{
  ValidatorKind, deterministic, EvidenceOutcome, passed, MeasuredFact, EvidenceBinding,
  EvidenceEntry, measured_fact, evidence_binding, evidence_entry, verify_integrity, binding_eq,
  texts_eq,
}
use artifex_dev.Validation.Payload.{
  Codec, Members, find, kind_of, kind_name, outcome_of, outcome_name, strings, texts_of, fact_items,
  fact_of, facts_of, binding_members, binding_of, entry_of, evidence_to_payload,
  evidence_from_payload, check_entry, checked, is_trusted,
}

kind_of-name : (k : ValidatorKind) → kind_of (kind_name k) ≡ some k
unfolding kind_of
kind_of-name deterministic = refl
kind_of-name _ = refl

outcome_of-name : (o : EvidenceOutcome) → outcome_of (outcome_name o) ≡ some o
unfolding outcome_of
outcome_of-name passed = refl
outcome_of-name _ = refl

texts_of-strings : (ss : List String) → texts_of (strings ss) ≡ some ss
unfolding texts_of
texts_of-strings [] = refl
texts_of-strings (s ∷ ss) = rw (texts_of-strings ss) refl

-- Every fact and the binding come from their constructors.
pub record IsValid (codec : Codec) (e : EvidenceEntry) : Type 0 where
  pub facts : All (λ f. measured_fact codec.scrub_secrets f ≡ ok f) e.facts
  pub binding : evidence_binding e.binding ≡ ok e.binding
  pub entry : evidence_entry codec.scrub_secrets codec.is_aware e ≡ ok e
  pub time : codec.parse_time e.recorded_at ≡ some e.recorded_at

facts_of-items :
    (scrub : String → String) (fs : List MeasuredFact)
    → All (λ f. measured_fact scrub f ≡ ok f) fs
    → facts_of scrub (fact_items fs) ≡ some fs
unfolding facts_of fact_of find
facts_of-items scrub [] h = refl
facts_of-items scrub (f ∷ fs) h = rw h.0 (rw (facts_of-items scrub fs h.1) refl)

binding_of-members :
    (b : EvidenceBinding)
    → evidence_binding b ≡ ok b
    → (scrub : String → String) → binding_of scrub (binding_members b) ≡ some b
unfolding binding_of find
binding_of-members b h scrub = rw (texts_of-strings b.project_model_fingerprints) (rw h refl)

entry_of-payload :
    (codec : Codec) (e : EvidenceEntry)
    → IsValid codec e
    → entry_of codec.scrub_secrets codec.is_aware codec.parse_time (evidence_to_payload e) ≡ some e
unfolding entry_of evidence_to_payload find
entry_of-payload codec e v =
    simp
      (
        kind_of-name,
        outcome_of-name,
        facts_of-items codec.scrub_secrets e.facts v.facts,
        binding_of-members e.binding v.binding codec.scrub_secrets,
        v.time,
      )
      (ap checked v.entry)

texts_eq_sound : (xs ys : List String) → texts_eq xs ys ≡ true → xs ≡ ys
texts_eq_sound [] [] h = refl
texts_eq_sound [] (y ∷ ys) h = cc
texts_eq_sound (x ∷ xs) [] h = cc
texts_eq_sound (x ∷ xs) (y ∷ ys) h = ground (arith, eq_iff x y, texts_eq_sound xs ys)

texts_eq_refl : (xs : List String) → texts_eq xs xs ≡ true
texts_eq_refl [] = refl
texts_eq_refl (x ∷ xs) = ground (arith, eq_refl x, texts_eq_refl xs)

pub binding_eq_iff : (a b : EvidenceBinding) → (binding_eq a b ≡ true) ↔ (a ≡ b)
unfolding binding_eq
binding_eq_iff a b = (
  λ h.
      let same =
        texts_eq_sound a.project_model_fingerprints b.project_model_fingerprints (ground arith) in
      ground (arith, eq_iff a.base_commit b.base_commit, eq_iff a.contract_hash b.contract_hash),
  λ e. rw e (
      ground (
        arith,
        eq_refl b.base_commit,
        eq_refl b.contract_hash,
        texts_eq_refl b.project_model_fingerprints,
      )),
)

-- An entry that its constructors accept, whose validator is trusted and whose hash is right, is
-- decoded from its own payload as it was, if the schema admits the payload.
pub payload_round_trip :
    (codec : Codec) (trusted : Dict String) (e : EvidenceEntry)
    → IsValid codec e
    → codec.conforms (evidence_to_payload e) ≡ true
    → is_trusted (lookup e.validator_id trusted) e.validator_version ≡ true
    → verify_integrity codec.hash_payload e ≡ true
    → evidence_from_payload codec trusted
        (some e.binding)
        e.independent_of_executor
        (evidence_to_payload e)
      ≡ ok e
unfolding evidence_from_payload check_entry
payload_round_trip codec trusted e v admitted known whole =
    rw (entry_of-payload codec e v)
      (rw admitted (ground (arith, (binding_eq_iff e.binding e.binding).1 refl)))

-- Evidence that is decoded as current was made by a trusted validator in its trusted version, has
-- the hash of its values, is independent of the executor, and is bound to the expected commit,
-- contract and models.
pub decoded_is_current :
    (codec : Codec) (trusted : Dict String) (b : EvidenceBinding) (p : Members) (e : EvidenceEntry)
    → evidence_from_payload codec trusted (some b) true p ≡ ok e
    → (lookup e.validator_id trusted ≡ some e.validator_version)
      × (e.entry_hash ≡ codec.hash_payload e.values)
      × (e.independent_of_executor ≡ true)
      × (e.binding ≡ b)
unfolding evidence_from_payload check_entry verify_integrity
decoded_is_current codec trusted b p e h = grind (arith, eq_iff, binding_eq_iff)
