-- ===== src/Validation/Validators.antt =====
-- The validators of src/artifex/validation/core.py. A command's outcome is an argument: the runner
-- starts a process.
use artifex_dev.Prelude.{
  ◌==◌, String, Bool, true, false, not, ◌||◌, List, [], ◌∷◌, if◌then◌else◌, Result, ok, raise,
  str_eq, ℤ,
}
use Prim.Native.String.{◌++◌}
use artifex_dev.Policy.{AcceptanceAuthority, architect, human}
use artifex_dev.Validation.Errors.{
  ValidationError, no_inspector, not_independent, no_human_authority,
}
use artifex_dev.Validation.Entry.{
  ValidatorKind, deterministic, structured_inspection, independent_agent, manual, EvidenceOutcome,
  passed, failed, MeasuredFact, integer, ValidatorResult,
}

-- What the validators read of a `ValidationContext`.
pub record ValidationContext : Type 0 where
  pub claim : String
  pub executor_id : String

pub record CommandOutcome : Type 0 where
  pub exit_code : ℤ
  pub stdout : String
  pub stderr : String

abbrev outcome_of : Bool → EvidenceOutcome
outcome_of true = passed
outcome_of false = failed

abbrev same_code : ℤ → ℤ → Bool
same_code (ℤ.pos a) (ℤ.pos b) = a == b
same_code (ℤ.negsuc a) (ℤ.negsuc b) = a == b
same_code _ _ = false

-- `DeterministicValidator.validate`
unfoldable pub validate_deterministic :
    String → String → ℤ → ValidationContext → CommandOutcome → ValidatorResult
validate_deterministic validator_id version expected_exit_code context o = record {
  validator_id = validator_id;
  validator_version = version;
  kind = deterministic;
  claim = context.claim;
  outcome = outcome_of (same_code o.exit_code expected_exit_code);
  facts = record { name = "exit_code"; value = integer o.exit_code } ∷ [];
  output = o.stdout ++ o.stderr;
  producer_id = "ARTIFEX_DETERMINISTIC_RUNNER";
  independent_of_executor = true;
}

-- What the other three validators are told.
pub record Verdict : Type 0 where
  pub producer_id : String
  pub passed : Bool
  pub facts : List MeasuredFact
  pub output : String

abbrev result_of :
    String → String → ValidatorKind → ValidationContext → Verdict → Bool → ValidatorResult
result_of validator_id version kind context v independent = record {
  validator_id = validator_id;
  validator_version = version;
  kind = kind;
  claim = context.claim;
  outcome = outcome_of v.passed;
  facts = v.facts;
  output = v.output;
  producer_id = v.producer_id;
  independent_of_executor = independent;
}

-- `StructuredInspectionValidator.validate`
unfoldable pub validate_inspection :
    String → String → ValidationContext → Verdict → Result ValidationError ValidatorResult
validate_inspection validator_id version context v =
    if str_eq v.producer_id ""
    then raise no_inspector
    else ok (
        result_of validator_id version structured_inspection context v
          (not (str_eq v.producer_id context.executor_id)))

-- `IndependentAgentValidator.validate`
unfoldable pub validate_agent :
    String → String → ValidationContext → Verdict → Result ValidationError ValidatorResult
validate_agent validator_id version context v =
    if str_eq v.producer_id "" || str_eq v.producer_id context.executor_id
    then raise not_independent
    else ok (result_of validator_id version independent_agent context v true)

abbrev is_human : AcceptanceAuthority → Bool
is_human human = true
is_human architect = true
is_human _ = false

-- `ManualValidator.validate`
unfoldable pub validate_manual :
    String
    → String
    → ValidationContext
    → AcceptanceAuthority
    → Verdict
    → Result ValidationError ValidatorResult
validate_manual validator_id version context authority v =
    if str_eq v.producer_id "" || not (is_human authority)
    then raise no_human_authority
    else ok (
        result_of validator_id version manual context v
          (not (str_eq v.producer_id context.executor_id)))
