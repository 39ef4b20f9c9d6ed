-- ===== src/Validation/Entry.antt =====
-- Measured facts, validators' results and evidence entries of src/artifex/validation/core.py.
-- A timestamp is its text in ISO form; what `datetime` does with it is a parameter, like
-- `scrub_secrets` and the hash of an entry's values as JSON.
use artifex_dev.Prelude.{
  ℕ, leb, ltb, ◌==◌, String, codes, Bool, true, false, not, ◌&&◌, ◌||◌, List, [], ◌∷◌,
  if◌then◌else◌, Result, ok, raise, str_eq, has_prefix, all, is_empty, length, ℤ, refl, eq_iff,
  arith, ◌≡◌,
}
use native.Mathlib.Decide.{ℕ_discrete}
use artifex_dev.Runtime.Envelope.{is_hex_text}
use artifex_dev.Validation.Errors.{
  ValidationError, fact_name_missing, fact_name_secret, fact_not_finite, fact_too_long, fact_secret,
  binding_incomplete, bad_evidence_id, bad_identity, identity_secret, bad_claim, claim_secret,
  bad_output, naive_timestamp, bad_entry_hash,
}

pub data ValidatorKind : Type 0 where
  deterministic structured_inspection independent_agent manual : ValidatorKind

pub data EvidenceOutcome : Type 0 where
  passed failed blocked : EvidenceOutcome

-- A finite float is its shortest decimal text.
pub data Scalar : Type 0 where
  null not_finite : Scalar
  flag : Bool → Scalar
  integer : ℤ → Scalar
  real : String → Scalar
  text : String → Scalar

pub record MeasuredFact : Type 0 where
  pub name : String
  pub value : Scalar

-- `len(value)`
abbrev pub len : String → ℕ
len s = length (codes s)

abbrev is_changed : (String → String) → String → Bool
is_changed scrub s = not (str_eq (scrub s) s)

abbrev check_value : (String → String) → MeasuredFact → Scalar → Result ValidationError MeasuredFact
check_value scrub f not_finite = raise fact_not_finite
check_value scrub f (text s) =
    if ltb 1000 (len s)
    then raise fact_too_long
    else if is_changed scrub s
    then raise fact_secret
    else ok f
check_value scrub f _ = ok f

-- `MeasuredFact.__post_init__`
unfoldable pub measured_fact :
    (String → String) → MeasuredFact → Result ValidationError MeasuredFact
measured_fact scrub f =
    if str_eq f.name "" || ltb 200 (len f.name)
    then raise fact_name_missing
    else if is_changed scrub f.name
    then raise fact_name_secret
    else check_value scrub f f.value

pub record EvidenceBinding : Type 0 where
  pub base_commit : String
  pub contract_hash : String
  pub project_model_fingerprints : List String

abbrev pub texts_eq : List String → List String → Bool
texts_eq [] [] = true
texts_eq (a ∷ as') (b ∷ bs) = str_eq a b && texts_eq as' bs
texts_eq _ _ = false

-- `==` of two bindings
unfoldable pub binding_eq : EvidenceBinding → EvidenceBinding → Bool
binding_eq a b =
    str_eq a.base_commit b.base_commit
    && str_eq a.contract_hash b.contract_hash
    && texts_eq a.project_model_fingerprints b.project_model_fingerprints

-- `EvidenceBinding.__post_init__`
unfoldable pub evidence_binding : EvidenceBinding → Result ValidationError EvidenceBinding
unfolding is_empty
evidence_binding b =
    if str_eq b.base_commit "" || str_eq b.contract_hash "" || is_empty b.project_model_fingerprints
    then raise binding_incomplete
    else ok b

pub record ValidatorResult : Type 0 where
  pub validator_id : String
  pub validator_version : String
  pub kind : ValidatorKind
  pub claim : String
  pub outcome : EvidenceOutcome
  pub facts : List MeasuredFact
  pub output : String
  pub producer_id : String
  pub independent_of_executor : Bool

-- All fields of `EvidenceEntry` but the hash.
pub record EntryValues : Type 0 where
  pub evidence_id : String
  pub validator_id : String
  pub validator_version : String
  pub validator_kind : ValidatorKind
  pub claim : String
  pub outcome : EvidenceOutcome
  pub facts : List MeasuredFact
  pub binding : EvidenceBinding
  pub output : String
  pub recorded_at : String
  pub producer_id : String
  pub independent_of_executor : Bool

pub record EvidenceEntry : Type 0 where
  pub values : EntryValues
  pub open values use *
  pub entry_hash : String

pub differs : (a b : String) → str_eq a b ≡ false → ¬ (a ≡ b)
differs a b e p = absurd (ground (arith, (eq_iff a b).1 p))

abbrev by_test : (a b : String) (t : Bool) → str_eq a b ≡ t → Dec (a ≡ b)
by_test a b true e = yes ((eq_iff a b).0 e)
by_test a b false e = no (differs a b e)

unfoldable pub String-discrete : Discrete String
String-discrete a b = by_test a b (str_eq a b) refl

-- `==` of two entries. A decoded entry holds the very values of its payload, so the equality of
-- values of different types, which Python has, plays no part.
unfoldable pub EvidenceEntry-discrete : Discrete EvidenceEntry
unfolding String-discrete
EvidenceEntry-discrete = hlevel (ℕ_discrete, String-discrete)

abbrev is_upper_digit : ℕ → Bool
is_upper_digit c = (leb b'A' c && leb c b'Z') || (leb b'0' c && leb c b'9')

abbrev is_alnum : ℕ → Bool
is_alnum c = is_upper_digit c || (leb b'a' c && leb c b'z')

abbrev starts : (ℕ → Bool) → (ℕ → Bool) → ℕ → List ℕ → Bool
starts first rest bound [] = false
starts first rest bound (c ∷ cs) = first c && all rest cs && leb (length cs) bound

abbrev drop4 : List ℕ → List ℕ
drop4 (a ∷ b ∷ c ∷ d ∷ rest) = rest
drop4 _ = []

-- `_IDENTITY_PATTERN`, `_VERSION_PATTERN` and `_EVIDENCE_ID_PATTERN` over the whole text.
unfoldable pub is_identity : String → Bool
unfolding all
is_identity s =
    starts is_alnum (λ c. is_alnum c || c == b'.' || c == b'_' || c == b':' || c == b'-') 127
      (codes s)

unfoldable pub is_version : String → Bool
unfolding all
is_version s =
    starts is_alnum (λ c. is_alnum c || c == b'.' || c == b'+' || c == b'_' || c == b'-') 63
      (codes s)

unfoldable pub is_evidence_id : String → Bool
unfolding all has_prefix
is_evidence_id s =
    has_prefix "EVD-" s
    && starts is_upper_digit (λ c. is_upper_digit c || c == b'-') (len s) (drop4 (codes s))

-- `value[:n]`
unfoldable pub clip : ℕ → String → String
clip n String.[] = ""
clip ℕ.zero (String.◌∷◌ c s) = ""
clip (ℕ.suc n) (String.◌∷◌ c s) = String.◌∷◌ c (clip n s)

module _ (scrub_secrets : String → String) (is_aware : String → Bool) where
  -- `EvidenceEntry.__post_init__`
  unfoldable pub evidence_entry : EvidenceEntry → Result ValidationError EvidenceEntry
  evidence_entry e =
      if ltb 128 (len e.evidence_id) || not (is_evidence_id e.evidence_id)
      then raise bad_evidence_id
      else if not (is_identity e.validator_id)
      then raise bad_identity
      else if is_changed scrub_secrets e.validator_id
      then raise identity_secret
      else if not (is_identity e.producer_id)
      then raise bad_identity
      else if is_changed scrub_secrets e.producer_id
      then raise identity_secret
      else if not (is_version e.validator_version)
      then raise bad_identity
      else if is_changed scrub_secrets e.validator_version
      then raise identity_secret
      else if str_eq e.claim "" || ltb 1000 (len e.claim)
      then raise bad_claim
      else if is_changed scrub_secrets e.claim
      then raise claim_secret
      else if ltb 4000 (len e.output) || is_changed scrub_secrets e.output
      then raise bad_output
      else if not (is_aware e.recorded_at)
      then raise naive_timestamp
      else if not (is_hex_text 64 e.entry_hash)
      then raise bad_entry_hash
      else ok e

  module _ (hash_payload : EntryValues → String) where
    -- `EvidenceEntry.create`, for the time that it takes or is given.
    unfoldable pub create :
        String → ValidatorResult → EvidenceBinding → String → Result ValidationError EvidenceEntry
    create evidence_id r binding recorded_at =
        if not (has_prefix "EVD-" evidence_id)
        then raise bad_evidence_id
        else if not (is_aware recorded_at)
        then raise naive_timestamp
        else (let values : EntryValues = record {
          evidence_id = evidence_id;
          validator_id = r.validator_id;
          validator_version = r.validator_version;
          validator_kind = r.kind;
          claim = r.claim;
          outcome = r.outcome;
          facts = r.facts;
          binding = binding;
          output = clip 4000 (scrub_secrets r.output);
          recorded_at = recorded_at;
          producer_id = r.producer_id;
          independent_of_executor = r.independent_of_executor;
        } in
            evidence_entry (record { values = values; entry_hash = hash_payload values }))

-- `EvidenceEntry.verify_integrity`
unfoldable pub verify_integrity : (EntryValues → String) → EvidenceEntry → Bool
verify_integrity hash_payload e = str_eq e.entry_hash (hash_payload e.values)
