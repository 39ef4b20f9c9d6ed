-- ===== src/Validation/Payload.antt =====
-- The codec of src/artifex/validation/evidence.py. `conforms` is `jsonschema` with the packaged
-- schema, `parse_time` is `datetime.fromisoformat` followed by `isoformat`. The schema makes the
-- parts of a binding texts, so another value there is refused like a missing one.
pub mod RoundTrip
use artifex_dev.Prelude.{
  String, Bool, true, false, not, ◌&&◌, Option, none, some, List, [], ◌∷◌, if◌then◌else◌, Result,
  ok, raise, is_ok, Dict, lookup, str_eq,
}
use artifex_dev.Validation.Errors.{
  ValidationError, invalid_evidence, untrusted_validator, broken_integrity, not_independent,
  stale_binding,
}
use artifex_dev.Validation.Entry.{
  Scalar, flag, text, ValidatorKind, deterministic, structured_inspection, independent_agent,
  manual, EvidenceOutcome, passed, failed, blocked, MeasuredFact, EvidenceBinding, EntryValues,
  EvidenceEntry, measured_fact, evidence_binding, evidence_entry, verify_integrity, binding_eq,
}

-- A JSON value.
mutual
  pub data Value : Type 0 where
    scalar : Scalar → Value
    array : Items → Value
    object : Members → Value

  pub data Items : Type 0 where
    end : Items
    item : Value → Items → Items

  pub data Members : Type 0 where
    done : Members
    member : String → Value → Members → Members

-- `value[key]`
unfoldable pub find : String → Members → Option Value
find key done = none
find key (member k v ms) = if str_eq k key then some v else find key ms

-- `ValidatorKind.value` and `ValidatorKind(value)`, and so for the outcome.
abbrev pub kind_name : ValidatorKind → String
kind_name deterministic = "DETERMINISTIC"
kind_name structured_inspection = "STRUCTURED_INSPECTION"
kind_name independent_agent = "INDEPENDENT_AGENT"
kind_name manual = "MANUAL"

unfoldable pub kind_of : String → Option ValidatorKind
kind_of s =
    if str_eq s "DETERMINISTIC"
    then some deterministic
    else if str_eq s "STRUCTURED_INSPECTION"
    then some structured_inspection
    else if str_eq s "INDEPENDENT_AGENT"
    then some independent_agent
    else if str_eq s "MANUAL"
    then some manual
    else none

abbrev pub outcome_name : EvidenceOutcome → String
outcome_name passed = "PASS"
outcome_name failed = "FAIL"
outcome_name blocked = "BLOCKED"

unfoldable pub outcome_of : String → Option EvidenceOutcome
outcome_of s =
    if str_eq s "PASS"
    then some passed
    else if str_eq s "FAIL"
    then some failed
    else if str_eq s "BLOCKED"
    then some blocked
    else none

abbrev pub string : String → Value
string s = scalar (text s)

abbrev pub strings : List String → Items
strings [] = end
strings (s ∷ ss) = item (string s) (strings ss)

abbrev pub fact_items : List MeasuredFact → Items
fact_items [] = end
fact_items (f ∷ fs) =
    item (object (member "name" (string f.name) (member "value" (scalar f.value) done)))
      (fact_items fs)

abbrev pub binding_members : EvidenceBinding → Members
binding_members b = member "base_commit" (string b.base_commit) (
    member "contract_hash" (string b.contract_hash)
      (member "project_model_fingerprints" (array (strings b.project_model_fingerprints)) done))

unfoldable pub evidence_to_payload : EvidenceEntry → Members
evidence_to_payload e = member "schema_version" (string "2.0") (
    member "evidence_id" (string e.evidence_id) (
      member "validator_id" (string e.validator_id) (
        member "validator_version" (string e.validator_version) (
          member "validator_kind" (string (kind_name e.validator_kind)) (
            member "claim" (string e.claim) (
              member "outcome" (string (outcome_name e.outcome)) (
                member "facts" (array (fact_items e.facts)) (
                  member "binding" (object (binding_members e.binding)) (
                    member "output" (string e.output) (
                      member "recorded_at" (string e.recorded_at) (
                        member "producer_id" (string e.producer_id) (
                          member "independent_of_executor" (scalar (flag e.independent_of_executor))
                            (member "entry_hash" (string e.entry_hash) done)))))))))))))

abbrev and_some {ℓ} : {A B : Type ℓ} → Option A → (A → Option B) → Option B
and_some none f = none
and_some (some a) f = f a

infixl 5 ◌>>=◌
abbrev ◌>>=◌ {ℓ} : {A B : Type ℓ} → Option A → (A → Option B) → Option B
◌>>=◌ = and_some

abbrev as_text : Value → Option String
as_text (scalar (text s)) = some s
as_text _ = none

abbrev as_flag : Value → Option Bool
as_flag (scalar (flag b)) = some b
as_flag _ = none

abbrev as_scalar : Value → Option Scalar
as_scalar (scalar s) = some s
as_scalar _ = none

abbrev as_items : Value → Option Items
as_items (array xs) = some xs
as_items _ = none

abbrev as_members : Value → Option Members
as_members (object ms) = some ms
as_members _ = none

abbrev get_text : String → Members → Option String
get_text key ms = find key ms >>= as_text

unfoldable pub texts_of : Items → Option (List String)
texts_of end = some []
texts_of (item v vs) = let rest = texts_of vs in as_text v >>= λ s. rest >>= λ ss. some (s ∷ ss)

-- What passes a constructor's checks.
abbrev pub checked {ℓ} : {E A : Type ℓ} → Result E A → Option A
checked (ok a) = some a
checked (raise x) = none

module _ (scrub_secrets : String → String) where
  unfoldable pub fact_of : Members → Option MeasuredFact
  fact_of ms = do
    name ← get_text "name" ms
    value ← find "value" ms >>= as_scalar
    checked (measured_fact scrub_secrets (record { name = name; value = value }))

  -- The facts; an item that is no mapping is passed over.
  unfoldable pub facts_of : Items → Option (List MeasuredFact)
  facts_of end = some []
  facts_of (item (object ms) vs) =
      let rest = facts_of vs in fact_of ms >>= λ f. rest >>= λ fs. some (f ∷ fs)
  facts_of (item _ vs) = facts_of vs

  unfoldable pub binding_of : Members → Option EvidenceBinding
  binding_of ms = do
    base_commit ← get_text "base_commit" ms
    contract_hash ← get_text "contract_hash" ms
    fingerprints ← find "project_model_fingerprints" ms >>= as_items >>= texts_of
    checked (
        evidence_binding (record {
          base_commit = base_commit;
          contract_hash = contract_hash;
          project_model_fingerprints = fingerprints;
        }))

  module _ (is_aware : String → Bool) (parse_time : String → Option String) where
    -- The body of the `try` block after the schema.
    unfoldable pub entry_of : Members → Option EvidenceEntry
    entry_of ms = do
      evidence_id ← get_text "evidence_id" ms
      validator_id ← get_text "validator_id" ms
      validator_version ← get_text "validator_version" ms
      validator_kind ← get_text "validator_kind" ms >>= kind_of
      claim ← get_text "claim" ms
      outcome ← get_text "outcome" ms >>= outcome_of
      facts ← find "facts" ms >>= as_items >>= facts_of
      binding ← find "binding" ms >>= as_members >>= binding_of
      output ← get_text "output" ms
      recorded_at ← get_text "recorded_at" ms >>= parse_time
      producer_id ← get_text "producer_id" ms
      independent ← find "independent_of_executor" ms >>= as_flag
      entry_hash ← get_text "entry_hash" ms
      checked (
          evidence_entry scrub_secrets is_aware (record {
            values = record {
              evidence_id = evidence_id;
              validator_id = validator_id;
              validator_version = validator_version;
              validator_kind = validator_kind;
              claim = claim;
              outcome = outcome;
              facts = facts;
              binding = binding;
              output = output;
              recorded_at = recorded_at;
              producer_id = producer_id;
              independent_of_executor = independent;
            };
            entry_hash = entry_hash;
          }))

-- `trusted.get(validator_id) == validator_version`
abbrev pub is_trusted : Option String → String → Bool
is_trusted none version = false
is_trusted (some v) version = str_eq v version

abbrev is_stale : Option EvidenceBinding → EvidenceBinding → Bool
is_stale none b = false
is_stale (some expected) b = not (binding_eq b expected)

-- What the codec and the ledger take from outside.
pub record Codec : Type 0 where
  pub scrub_secrets : String → String
  pub is_aware : String → Bool
  pub parse_time : String → Option String
  pub conforms : Members → Bool
  pub hash_payload : EntryValues → String

-- The checks of `evidence_from_payload` on a decoded entry.
unfoldable pub check_entry :
    Codec
    → Dict String
    → Option EvidenceBinding
    → Bool
    → Option EvidenceEntry
    → Result ValidationError EvidenceEntry
check_entry codec trusted expected require_independent none = raise invalid_evidence
check_entry codec trusted expected require_independent (some e) =
    if not (is_trusted (lookup e.validator_id trusted) e.validator_version)
    then raise untrusted_validator
    else if not (verify_integrity codec.hash_payload e)
    then raise broken_integrity
    else if require_independent && not e.independent_of_executor
    then raise not_independent
    else if is_stale expected e.binding
    then raise stale_binding
    else ok e

unfoldable pub evidence_from_payload :
    Codec
    → Dict String
    → Option EvidenceBinding
    → Bool
    → Members
    → Result ValidationError EvidenceEntry
evidence_from_payload codec trusted expected require_independent payload =
    if codec.conforms payload
    then check_entry codec trusted expected require_independent
        (entry_of codec.scrub_secrets codec.is_aware codec.parse_time payload)
    else raise invalid_evidence
