-- ===== src/Validation/Examples.antt =====
-- Runs of the validation model, and its theorems at concrete inputs.
use artifex_dev.Prelude.{
  String, ◌≡◌, refl, Bool, true, false, none, some, List, [], ◌∷◌, ok, raise, ◌>>=◌, Dict, lookup,
  put, contains, has_prefix, all, is_empty, is_distinct, ℤ,
}
use native.Mathlib.Decide.{ℕ_discrete}
use artifex_dev.Policy.{core}
use artifex_dev.Runtime.Envelope.{is_hex_text}
use artifex_dev.Validation.Errors.{duplicate_evidence}
use artifex_dev.Validation.Contract.{
  Terms, AcceptanceContract, AcceptanceContractState, acceptance_contract, assert_untampered, start,
}
use artifex_dev.Validation.Contract.Sealing
use artifex_dev.Validation.Entry.{
  ValidatorKind, EvidenceOutcome, Scalar, EvidenceBinding, EvidenceEntry, EvidenceEntry-discrete,
  String-discrete, measured_fact, evidence_binding, evidence_entry, is_identity, is_version,
  is_evidence_id, verify_integrity, binding_eq,
}
use artifex_dev.Validation.Payload.{
  Codec, find, kind_of, outcome_of, texts_of, fact_of, facts_of, binding_of, entry_of,
  evidence_to_payload, evidence_from_payload, check_entry,
}
use artifex_dev.Validation.Payload.RoundTrip
use artifex_dev.Validation.Payload.RoundTrip.{IsValid}
use artifex_dev.Validation.Ledger.{
  EvidenceLedger, new_ledger, Event, persist, check_new, validate_entry, append, invalidate,
  invalidate_each, invalidate_one, load_event, load_journal,
}
use artifex_dev.Validation.Ledger
use artifex_dev.Validation.Ledger.Journal
use artifex_dev.Validation.Ledger.Journal.{Call, append_call, invalidate_call, history, call, at}
use artifex_dev.Validation.Gates.{
  GateDefinition, GateLevel, GateState, EvidenceRequirement, find_gate, check_children, check_gates,
  gate_ids, gate_graph, has_kind, is_candidate, filter, has_outcome, count_passes,
  evaluate_requirement, has_state, worst, requirement_states, own_state, each, waives, active,
  evaluate_from, evaluate,
}
use artifex_dev.Validation.Gates.Levels
use artifex_dev.Validation.Gates.Levels.{Settles}
use artifex_dev.Validation.Gates.Approval
use artifex_dev.Validation.Gates.Approval.{Approved}

program : Unit {0}
unfolding ◌>>=◌ lookup put contains has_prefix all is_empty is_distinct is_hex_text
    acceptance_contract assert_untampered start ℕ_discrete EvidenceEntry-discrete String-discrete
    measured_fact evidence_binding evidence_entry is_identity is_version is_evidence_id
    verify_integrity binding_eq find kind_of outcome_of texts_of fact_of facts_of binding_of
    entry_of evidence_to_payload evidence_from_payload check_entry persist check_new validate_entry
    append invalidate invalidate_each invalidate_one load_event load_journal history call
    Ledger.state find_gate check_children check_gates gate_ids gate_graph has_kind is_candidate
    filter has_outcome count_passes evaluate_requirement has_state worst requirement_states
    own_state each waives active evaluate_from evaluate
program = tt

abbrev zeros : String
zeros = "0000000000000000000000000000000000000000000000000000000000000000"

abbrev codec : Codec
codec = record {
  scrub_secrets = λ s. s;
  is_aware = λ t. true;
  parse_time = some;
  conforms = λ p. true;
  hash_payload = λ v. zeros;
}

abbrev binding : EvidenceBinding
binding = record {
  base_commit = "c0ffee";
  contract_hash = "hash";
  project_model_fingerprints = "model" ∷ [];
}

abbrev entry_with : String → EvidenceOutcome → EvidenceEntry
entry_with id outcome = record {
  values = record {
    evidence_id = id;
    validator_id = "pytest";
    validator_version = "8.0";
    validator_kind = ValidatorKind.deterministic;
    claim = "tests pass";
    outcome = outcome;
    facts = record { name = "exit_code"; value = Scalar.integer (ℤ.pos 0) } ∷ [];
    binding = binding;
    output = "";
    recorded_at = "2026-01-01T00:00:00+00:00";
    producer_id = "ARTIFEX_DETERMINISTIC_RUNNER";
    independent_of_executor = true;
  };
  entry_hash = zeros;
}

abbrev entry : EvidenceEntry
entry = entry_with "EVD-1" EvidenceOutcome.passed

abbrev trusted : Dict String
trusted = ("pytest", "8.0") ∷ []

entry-IsValid : IsValid codec entry
unfolding program
entry-IsValid = record { facts = (refl, tt); binding = refl; entry = refl; time = refl }

payload_round_trip_example :
    evidence_from_payload codec trusted (some binding) true (evidence_to_payload entry) ≡ ok entry
unfolding program
payload_round_trip_example =
    RoundTrip.payload_round_trip codec trusted entry entry-IsValid refl refl refl

decoded :
    evidence_from_payload codec trusted (some binding) true (evidence_to_payload entry) ≡ ok entry
unfolding program
decoded = refl

decoded_is_current_example :
    (lookup "pytest" trusted ≡ some "8.0")
    × (entry.entry_hash ≡ zeros)
    × (entry.independent_of_executor ≡ true)
    × (entry.binding ≡ binding)
decoded_is_current_example =
    RoundTrip.decoded_is_current codec trusted binding (evidence_to_payload entry) entry decoded

-- The second append is refused as a duplicate.
abbrev calls : List Call
calls = append_call entry ∷ append_call entry ∷ invalidate_call ("EVD-1" ∷ []) "superseded" ∷ []

appended :
    ((append codec entry (new_ledger trusted (some []))).0 ≡ ok tt)
    × ((append codec entry (append codec entry (new_ledger trusted (some []))).1).0
        ≡ raise duplicate_evidence)
unfolding program
appended = (refl, refl)

journal_round_trip_example :
    (es : List Event) × ((history codec calls (new_ledger trusted (some []))).journal ≡ some es)
    × (load_journal codec es (new_ledger trusted none)
        ≡ (ok tt, at none (history codec calls (new_ledger trusted (some [])))))
journal_round_trip_example = Journal.journal_round_trip codec trusted calls none

abbrev ledger : EvidenceLedger
ledger = record (new_ledger trusted none) { entries = entry ∷ [] }

abbrev requirement : EvidenceRequirement
requirement = record {
  claim = "tests pass";
  allowed_validator_ids = "pytest" ∷ [];
  allowed_kinds = ValidatorKind.deterministic ∷ [];
  require_independent = true;
  minimum_passes = 1;
}

abbrev gate : String → GateLevel → List String → GateDefinition
gate id level children = record {
  gate_id = id;
  level = level;
  evidence = requirement ∷ [];
  children = children;
  waiver_allowed = false;
}

abbrev gates : List GateDefinition
gates = gate "build" GateLevel.integration ("unit" ∷ []) ∷ gate "unit" GateLevel.task [] ∷ []

abbrev before : String → String → Bool
before a b = false

checked : check_gates gates gates ≡ ok tt
unfolding program
checked = refl

passes : evaluate (λ t. true) before gates ledger binding "now" core [] "build" ≡ ok GateState.pass
unfolding program
passes = refl

evaluate-Settles_example :
    Settles (evaluate (λ t. true) before gates ledger binding "now" core [] "build")
unfolding program
evaluate-Settles_example =
    Levels.evaluate-Settles (λ t. true) before gates ledger binding "now" checked [] "build"
      (gate "build" GateLevel.integration ("unit" ∷ [])) refl refl

evaluate-Approved_example :
    (core ≡ core) × Approved gates ledger binding (active (λ t. true) before "now" []) "build"
evaluate-Approved_example =
    Approval.evaluate-Approved (λ t. true) before gates ledger binding "now" core [] "build"
      GateState.pass passes refl

abbrev draft : AcceptanceContract
draft = record {
  terms = record {
    contract_id = "AC-1";
    deliverable = "parser";
    requirements = [];
    interfaces = [];
    invariants = [];
    criteria = record { criterion_id = "c1"; outcome = "parses" } ∷ [];
    validators = "pytest" ∷ [];
    base_commit = "c0ffee";
    project_model_fingerprint = "model";
    version = 1;
  };
  state = AcceptanceContractState.draft;
  sealed_hash = none;
}

abbrev seal : Terms → String
seal t = t.contract_id

start_seals_example :
    (s : AcceptanceContract) × (start seal draft ≡ ok s)
    × (s.terms ≡ draft.terms)
    × (s.state ≡ AcceptanceContractState.execution_started)
    × (s.sealed_hash ≡ some "AC-1")
    × (acceptance_contract seal s ≡ ok s)
    × (assert_untampered seal s ≡ ok tt)
unfolding program
start_seals_example = Sealing.start_seals seal draft refl refl
