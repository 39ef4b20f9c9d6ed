-- ===== src/Validation/Errors.antt =====
-- The sites that raise a `ValidationError` in src/artifex/validation.
pub data ValidationError : Type 0 where
  criterion_missing contract_identity_missing no_criteria_or_validators : ValidationError
  duplicate_criteria broken_seal seal_without_start not_a_draft not_started tampered :
      ValidationError
  fact_name_missing fact_name_secret fact_not_finite fact_too_long fact_secret : ValidationError
  binding_incomplete bad_evidence_id bad_identity identity_secret bad_claim claim_secret :
      ValidationError
  bad_output naive_timestamp bad_entry_hash : ValidationError
  invalid_evidence untrusted_validator broken_integrity not_independent stale_binding :
      ValidationError
  unstable_codec duplicate_evidence bad_reason unknown_evidence duplicate_invalidation :
      ValidationError
  bad_journal_event legacy_journal : ValidationError
  no_inspector no_human_authority : ValidationError
  bad_waiver_request self_approval waiver_authority waiver_without_end : ValidationError
  bad_requirement minimum_not_positive bad_gate task_with_children gate_without_policy :
      ValidationError
  duplicate_gates unknown_child level_skipped : ValidationError
  not_core unknown_gate not_waivable recursion_limit : ValidationError
