-- ===== src/Validation/Contract.antt =====
-- `AcceptanceContract` of src/artifex/validation/core.py. The fingerprint is the SHA-256 of the
-- terms as JSON: `hash_payload` is a parameter.
pub mod Sealing
use artifex_dev.Prelude.{
  ℕ, ◌+◌, ltb, String, Bool, true, false, not, ◌&&◌, ◌||◌, Option, none, some, List, [], ◌∷◌, map,
  if◌then◌else◌, Result, ok, raise, and_then, str_eq, is_distinct, is_empty, any,
}
use artifex_dev.Validation.Errors.{
  ValidationError, criterion_missing, contract_identity_missing, no_criteria_or_validators,
  duplicate_criteria, broken_seal, seal_without_start, not_a_draft, not_started, tampered,
}

pub data AcceptanceContractState : Type 0 where
  draft execution_started superseded : AcceptanceContractState

pub record AcceptanceCriterion : Type 0 where
  pub criterion_id : String
  pub outcome : String

-- `AcceptanceCriterion.__post_init__`
unfoldable pub acceptance_criterion :
    AcceptanceCriterion → Result ValidationError AcceptanceCriterion
acceptance_criterion c =
    if str_eq c.criterion_id "" || str_eq c.outcome "" then raise criterion_missing else ok c

-- The fields that the fingerprint covers.
pub record Terms : Type 0 where
  pub contract_id : String
  pub deliverable : String
  pub requirements : List String
  pub interfaces : List String
  pub invariants : List String
  pub criteria : List AcceptanceCriterion
  pub validators : List String
  pub base_commit : String
  pub project_model_fingerprint : String
  pub version : ℕ

pub record AcceptanceContract : Type 0 where
  pub terms : Terms
  pub open terms use *
  pub state : AcceptanceContractState
  pub sealed_hash : Option String

abbrev criterion_ids : List AcceptanceCriterion → List String
criterion_ids [] = []
criterion_ids (c ∷ cs) = c.criterion_id ∷ criterion_ids cs

-- `sealed_hash is not None and sealed_hash == fingerprint`
abbrev pub seal_is : Option String → String → Bool
seal_is none fingerprint = false
seal_is (some h) fingerprint = str_eq h fingerprint

abbrev is_sealed : Option String → Bool
is_sealed none = false
is_sealed (some h) = true

-- The check of the seal at the end of `__post_init__`.
abbrev check_seal :
    AcceptanceContractState
    → Option String
    → String
    → AcceptanceContract
    → Result ValidationError AcceptanceContract
check_seal execution_started sealed fingerprint c =
    if seal_is sealed fingerprint then ok c else raise broken_seal
check_seal _ sealed fingerprint c = if is_sealed sealed then raise seal_without_start else ok c

module _ (hash_payload : Terms → String) where
  -- `AcceptanceContract.fingerprint`
  abbrev pub fingerprint : AcceptanceContract → String
  fingerprint c = hash_payload c.terms

  -- `AcceptanceContract.__post_init__`
  unfoldable pub acceptance_contract :
      AcceptanceContract → Result ValidationError AcceptanceContract
  unfolding is_empty
  acceptance_contract c =
      if str_eq c.contract_id ""
        || str_eq c.deliverable ""
        || str_eq c.base_commit ""
        || str_eq c.project_model_fingerprint ""
        || ltb c.version 1
      then raise contract_identity_missing
      else if is_empty c.criteria || is_empty c.validators
      then raise no_criteria_or_validators
      else if not (is_distinct (criterion_ids c.criteria))
      then raise duplicate_criteria
      else check_seal c.state c.sealed_hash (fingerprint c) c

  abbrev is_draft : AcceptanceContractState → Bool
  is_draft draft = true
  is_draft _ = false

  abbrev is_started : AcceptanceContractState → Bool
  is_started execution_started = true
  is_started _ = false

  -- `replace` runs the constructor's checks again.
  unfoldable pub start : AcceptanceContract → Result ValidationError AcceptanceContract
  start c =
      if is_draft c.state
      then acceptance_contract
          (record c { state = execution_started; sealed_hash = some (fingerprint c) })
      else raise not_a_draft

  unfoldable pub assert_untampered : AcceptanceContract → Result ValidationError (Unit {0})
  assert_untampered c =
      if not (is_started c.state)
      then raise not_started
      else if not (seal_is c.sealed_hash (fingerprint c))
      then raise tampered
      else ok tt

  abbrev or_else {ℓ} : {A : Type ℓ} → Option A → A → A
  or_else none a = a
  or_else (some b) a = b

  unfoldable pub new_version :
      List AcceptanceCriterion
      → Option (List String)
      → Option String
      → Option String
      → AcceptanceContract
      → Result ValidationError AcceptanceContract
  new_version criteria validators base_commit model_fingerprint c = acceptance_contract (record {
    terms = record {
      contract_id = c.contract_id;
      deliverable = c.deliverable;
      requirements = c.requirements;
      interfaces = c.interfaces;
      invariants = c.invariants;
      criteria = criteria;
      validators = or_else validators c.validators;
      base_commit = or_else base_commit c.base_commit;
      project_model_fingerprint = or_else model_fingerprint c.project_model_fingerprint;
      version = c.version + 1;
    };
    state = draft;
    sealed_hash = none;
  })
