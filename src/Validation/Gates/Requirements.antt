-- ===== src/Validation/Gates/Requirements.antt =====
-- What it takes for one requirement of a gate to pass.
use artifex_dev.Prelude.{
  ℕ, suc, ◌≤◌, ◌≡◌, refl, Bool, true, false, ◌&&◌, List, [], ◌∷◌, All, arith, if◌then◌else◌,
}
use artifex_dev.Validation.Entry.{EvidenceBinding, EvidenceEntry}
use artifex_dev.Validation.Ledger.{EvidenceLedger}
use artifex_dev.Validation.Gates.{
  EvidenceRequirement, GateState, is_candidate, filter, is_fail, is_blocked, is_pass, has_outcome,
  count_passes, is_current, evaluate_requirement,
}

-- The number of entries with a property.
pub tally : (EvidenceEntry → Bool) → List EvidenceEntry → ℕ
tally p [] = 0
tally p (e ∷ es) = if p e then suc (tally p es) else tally p es

-- Of the requirement's candidates that are current, none failed or is blocked, and at least the
-- required number passed.
pub record Met (r : EvidenceRequirement) (ledger : EvidenceLedger) (binding : EvidenceBinding)
    : Type 0 where
  pub clean :
      All
        (λ e.
          is_candidate r e ≡ true
          → is_current ledger binding e ≡ true
          → (is_fail e.outcome ≡ false) × (is_blocked e.outcome ≡ false))
        ledger.entries
  pub enough :
      r.minimum_passes
      ≤ tally
          (λ e. is_candidate r e && is_current ledger binding e && is_pass e.outcome)
          ledger.entries

none_left :
    (p q : EvidenceEntry → Bool) (es : List EvidenceEntry)
    → has_outcome is_fail (filter q (filter p es)) ≡ false
    → has_outcome is_blocked (filter q (filter p es)) ≡ false
    → All
        (λ e.
          p e ≡ true → q e ≡ true → (is_fail e.outcome ≡ false) × (is_blocked e.outcome ≡ false))
        es
unfolding has_outcome filter
none_left p q [] h k = tt
none_left p q (e ∷ es) h k = (λ a b. ground arith, none_left p q es (ground arith) (ground arith))

count_passes-tally :
    (p q : EvidenceEntry → Bool) (es : List EvidenceEntry)
    → count_passes (filter q (filter p es)) ≡ tally (λ e. p e && q e && is_pass e.outcome) es
unfolding count_passes filter tally
count_passes-tally p q [] = refl
count_passes-tally p q (e ∷ es) = ground (arith, count_passes-tally p q es)

pub evaluate_requirement-Met :
    (r : EvidenceRequirement) (ledger : EvidenceLedger) (binding : EvidenceBinding)
    → evaluate_requirement r ledger binding ≡ GateState.pass
    → Met r ledger binding
unfolding evaluate_requirement
evaluate_requirement-Met r ledger binding h = record {
  clean =
      none_left (is_candidate r) (is_current ledger binding) ledger.entries (ground arith)
        (ground arith);
  enough =
      ground
        (arith, count_passes-tally (is_candidate r) (is_current ledger binding) ledger.entries);
}
