-- ===== src/Validation/Ledger.antt =====
-- `EvidenceLedger` of src/artifex/validation/core.py. The journal is the list of the events that
-- were written to its file, none where there is no file: `json.loads` undoes `json.dumps`.
pub mod Journal
use artifex_dev.Prelude.{
  ℕ, ltb, String, Bool, true, false, not, ◌&&◌, ◌||◌, Option, none, some, List, [], ◌∷◌, ◌++◌,
  if◌then◌else◌, Result, ok, raise, Exec, pure, fail, gets, lift, modify, raise_if, ◌>>=◌, ◌>>◌,
  Dict, lookup, put, str_eq, contains, is_yes,
}
use artifex_dev.Validation.Errors.{
  ValidationError, unstable_codec, untrusted_validator, broken_integrity, duplicate_evidence,
  bad_reason, unknown_evidence, duplicate_invalidation, bad_journal_event,
}
use artifex_dev.Validation.Entry.{
  EvidenceBinding, EvidenceEntry, len, is_evidence_id, EvidenceEntry-discrete, verify_integrity,
  binding_eq,
}
use artifex_dev.Validation.Payload.{
  Codec, Members, evidence_to_payload, evidence_from_payload, is_trusted,
}

-- A line of the journal. `other` is any object of another shape.
pub data Event : Type 0 where
  recorded : Members → Event
  invalidation : String → String → Event
  other : Event

pub data EvidenceState : Type 0 where
  current stale : EvidenceState

pub record EvidenceLedger : Type 0 where
  pub trusted : Dict String
  pub entries : List EvidenceEntry
  pub invalidations : Dict String
  pub historical_ids : List String
  pub journal : Option (List Event)

-- `EvidenceLedger(trusted_validators, journal_path=..)` where the file is not there.
abbrev pub new_ledger : Dict String → Option (List Event) → EvidenceLedger
new_ledger trusted journal = record {
  trusted = trusted;
  entries = [];
  invalidations = [];
  historical_ids = [];
  journal = journal;
}

abbrev pub Method : Type 0 → Type 0
Method = Exec ValidationError EvidenceLedger

abbrev pub ids_of : List EvidenceEntry → List String
ids_of [] = []
ids_of (e ∷ es) = e.evidence_id ∷ ids_of es

abbrev pub is_some {ℓ} : {A : Type ℓ} → Option A → Bool
is_some none = false
is_some (some a) = true

-- `_persist`
abbrev log : Event → Option (List Event) → Option (List Event)
log e none = none
log e (some es) = some (es ++ (e ∷ []))

unfoldable pub persist : Event → Method (Unit {0})
persist e = modify λ l. record l { journal = log e l.journal }

module _ (codec : Codec) where
  -- The checks of `_validate_entry` after the codec.
  unfoldable pub check_new : EvidenceLedger → EvidenceEntry → Result ValidationError (Unit {0})
  check_new l e =
      if not (is_trusted (lookup e.validator_id l.trusted) e.validator_version)
      then raise untrusted_validator
      else if not (verify_integrity codec.hash_payload e)
      then raise broken_integrity
      else if contains e.evidence_id l.historical_ids || contains e.evidence_id (ids_of l.entries)
      then raise duplicate_evidence
      else ok tt

  -- `_entry_from_payload`. A payload without a version is one that the schema does not admit.
  abbrev pub decode : EvidenceLedger → Members → Result ValidationError EvidenceEntry
  decode l payload = evidence_from_payload codec l.trusted none false payload

  -- `_validate_entry`
  unfoldable pub validate_entry : EvidenceEntry → Method (Unit {0})
  validate_entry entry = do
    l ← gets (λ l. l)
    decoded ← lift (decode l (evidence_to_payload entry))
    raise_if unstable_codec (not (is_yes (EvidenceEntry-discrete decoded entry)))
    lift (check_new l entry)

  -- `_entries.append`
  abbrev add : EvidenceEntry → EvidenceLedger → EvidenceLedger
  add e l = record l { entries = l.entries ++ (e ∷ []) }

  unfoldable pub append : EvidenceEntry → Method (Unit {0})
  append entry = do
    validate_entry entry
    persist (recorded (evidence_to_payload entry))
    modify (add entry)

  abbrev set_invalid : String → String → EvidenceLedger → EvidenceLedger
  set_invalid id reason l = record l { invalidations = put id reason l.invalidations }

  -- One round of the loop of `invalidate`; `known` is taken before the loop.
  unfoldable pub invalidate_one : List String → String → String → Method (Unit {0})
  invalidate_one known reason id = do
    raise_if unknown_evidence (not (is_evidence_id id) || not (contains id known))
    invalid ← gets (λ l. is_some (lookup id l.invalidations))
    raise_if duplicate_invalidation invalid
    persist (invalidation id reason)
    modify (set_invalid id reason)

  unfoldable pub invalidate_each : List String → String → List String → Method (Unit {0})
  invalidate_each known reason [] = pure tt
  invalidate_each known reason (id ∷ ids) = do
    invalidate_one known reason id
    invalidate_each known reason ids

  -- `_secret_safe_text` fails
  abbrev pub bad_text : ℕ → String → Bool
  bad_text maximum s = str_eq s "" || ltb maximum (len s) || not (str_eq (codec.scrub_secrets s) s)

  unfoldable pub invalidate : List String → String → Method (Unit {0})
  invalidate ids reason = do
    raise_if bad_reason (bad_text 500 reason)
    known ← gets (λ l. ids_of l.entries)
    invalidate_each known reason ids

  -- One event of `_load_journal`.
  unfoldable pub load_event : Event → Method (Unit {0})
  load_event (recorded payload) = do
    l ← gets (λ l. l)
    entry ← lift (decode l payload)
    validate_entry entry
    modify (add entry)
  load_event (invalidation id reason) = do
    l ← gets (λ l. l)
    raise_if bad_journal_event (
        not (is_evidence_id id)
        || bad_text 500 reason
        || is_some (lookup id l.invalidations)
        || not (contains id (ids_of l.entries)))
    modify (set_invalid id reason)
  load_event other = fail bad_journal_event

  unfoldable pub load_journal : List Event → Method (Unit {0})
  load_journal [] = pure tt
  load_journal (e ∷ es) = do load_event e; load_journal es

abbrev is_current : Bool → Bool → EvidenceState
is_current true _ = stale
is_current false true = current
is_current false false = stale

-- `EvidenceLedger.state`
unfoldable pub state : EvidenceLedger → EvidenceEntry → EvidenceBinding → EvidenceState
state l entry expected =
    is_current (is_some (lookup entry.evidence_id l.invalidations))
      (binding_eq entry.binding expected)
