-- ===== src/Validation/Ledger/Journal.antt =====
-- Replaying the journal of a ledger gives the ledger.

use artifex_dev.Prelude.{
  String, ◌≡◌, refl, sym, ap, subst, ◌∙◌, inl, inr, true, false, Bool-cases, Result-cases, Option,
  some, List, [], ◌∷◌, ◌++◌, ok, raise, Dict, arith, ◌>>=◌, is_yes,
}
use artifex_dev.Validation.Errors.{ValidationError}
use artifex_dev.Validation.Entry.{EvidenceEntry, EvidenceEntry-discrete}
use artifex_dev.Validation.Payload.{Codec, evidence_to_payload}
use artifex_dev.Validation.Ledger.{
  Event, recorded, invalidation, EvidenceLedger, new_ledger, ids_of, persist, decode,
  validate_entry, append, invalidate_one, invalidate_each, invalidate, bad_text, load_event,
  load_journal, check_new,
}

-- The ledger with another journal.
abbrev pub at : Option (List Event) → EvidenceLedger → EvidenceLedger
at j l = record l { journal = j }

same_entry : (a b : EvidenceEntry) → is_yes (EvidenceEntry-discrete a b) ≡ true → a ≡ b
same_entry a b h = by_decision (EvidenceEntry-discrete a b) h
  where
    by_decision : (d : Dec (a ≡ b)) → is_yes d ≡ true → a ≡ b
    by_decision (yes p) _ = p
    by_decision (no _) q = cc

-- The calls that change a ledger.
pub data Call : Type 0 where
  append_call : EvidenceEntry → Call
  invalidate_call : List String → String → Call

module _ (codec : Codec) where
  validate_entry_lem :
      (e : EvidenceEntry) (l : EvidenceLedger)
      → (validate_entry codec e l).0 ≡ ok tt
      → (decode codec l (evidence_to_payload e) ≡ ok e)
        × ((j : Option (List Event)) → validate_entry codec e (at j l) ≡ (ok tt, at j l))
  unfolding validate_entry check_new ◌>>=◌
  validate_entry_lem e l h = elim (Result-cases (decode codec l (evidence_to_payload e))) [
    | inl (d, decoded) ↦
        let same = same_entry d e (ground arith) in (decoded ∙ ap ok same, λ j. ground arith)
    | inr (x, failed) ↦ absurd (ground arith)
  ]

  load_recorded :
      (e : EvidenceEntry) (l : EvidenceLedger) (j : Option (List Event))
      → (append codec e l).0 ≡ ok tt
      → load_event codec (recorded (evidence_to_payload e)) (at j l)
        ≡ (ok tt, at j (append codec e l).1)
  unfolding load_event append persist ◌>>=◌
  load_recorded e l j h = elim (Result-cases (validate_entry codec e l).0) [
    | inl (_, valid) ↦
        let (decoded, anywhere) = validate_entry_lem e l valid in
        let here = anywhere l.journal in let there = anywhere j in ground arith
    | inr (x, failed) ↦ absurd (ground arith)
  ]

  append-raises :
      (e : EvidenceEntry) (l : EvidenceLedger) (x : ValidationError)
      → (append codec e l).0 ≡ raise x
      → (append codec e l).1 ≡ l
  unfolding append validate_entry persist ◌>>=◌
  append-raises e l x h = ground arith

  append-journal :
      (e : EvidenceEntry) (l : EvidenceLedger) (es : List Event)
      → (append codec e l).0 ≡ ok tt
      → l.journal ≡ some es
      → (append codec e l).1.journal ≡ some (es ++ (recorded (evidence_to_payload e) ∷ []))
  unfolding append validate_entry persist ◌>>=◌
  append-journal e l es h kept = ground arith

  load_journal-add :
      (es : List Event) (e : Event) (start l m : EvidenceLedger)
      → load_journal codec es start ≡ (ok tt, l)
      → load_event codec e l ≡ (ok tt, m)
      → load_journal codec (es ++ (e ∷ [])) start ≡ (ok tt, m)
  unfolding load_journal ◌>>=◌
  load_journal-add [] e start l m h k = ground arith
  load_journal-add (d ∷ es) e start l m h k = elim (Result-cases (load_event codec d start).0) [
    | inl (_, first) ↦
        let rest = load_journal-add es e (load_event codec d start).1 l m (ground arith) k in
        ground arith
    | inr (x, failed) ↦ absurd (ground arith)
  ]

  -- Replaying the ledger's journal from the start gives the ledger, whatever journal is then open.
  pub record Replays (trusted : Dict String) (l : EvidenceLedger) : Type 0 where
    pub events : List Event
    pub kept : l.journal ≡ some events
    pub replayed :
        (j : Option (List Event))
        → load_journal codec events (new_ledger trusted j) ≡ (ok tt, at j l)

  append-Replays :
      (trusted : Dict String) (e : EvidenceEntry) (l : EvidenceLedger)
      → Replays trusted l
      → Replays trusted (append codec e l).1
  append-Replays trusted e l r = elim (Result-cases (append codec e l).0) [
    | inl (_, done) ↦ record {
      events = r.events ++ (recorded (evidence_to_payload e) ∷ []);
      kept = append-journal e l r.events done r.kept;
      replayed = λ j. load_journal-add r.events _ _ _ _ (r.replayed j) (load_recorded e l j done);
    }
    | inr (x, failed) ↦ subst (Replays trusted) (sym (append-raises e l x failed)) r
  ]

  invalidate_one-raises :
      (reason id : String) (known : List String) (l : EvidenceLedger) (x : ValidationError)
      → (invalidate_one codec known reason id l).0 ≡ raise x
      → (invalidate_one codec known reason id l).1 ≡ l
  unfolding invalidate_one persist ◌>>=◌
  invalidate_one-raises reason id known l x h = ground arith

  -- What one round leaves, and that its event is replayed.
  invalidate_one_lem :
      (reason id : String) (known : List String) (l : EvidenceLedger) (es : List Event)
      → ids_of l.entries ≡ known
      → bad_text codec 500 reason ≡ false
      → l.journal ≡ some es
      → (invalidate_one codec known reason id l).0 ≡ ok tt
      → ((invalidate_one codec known reason id l).1.journal
          ≡ some (es ++ (invalidation id reason ∷ [])))
        × ((j : Option (List Event))
            → load_event codec (invalidation id reason) (at j l)
              ≡ (ok tt, at j (invalidate_one codec known reason id l).1))
        × ((invalidate_one codec known reason id l).1.entries ≡ l.entries)
  unfolding invalidate_one load_event persist ◌>>=◌
  invalidate_one_lem reason id known l es same fine kept h =
      (ground arith, (λ j. ground arith), ground arith)

  each-Replays :
      (trusted : Dict String) (reason : String) (known ids : List String) (l : EvidenceLedger)
      → bad_text codec 500 reason ≡ false
      → ids_of l.entries ≡ known
      → Replays trusted l
      → Replays trusted (invalidate_each codec known reason ids l).1
  unfolding invalidate_each ◌>>=◌
  each-Replays trusted reason known [] l fine same r = r
  each-Replays trusted reason known (id ∷ ids) l fine same r =
      elim (Result-cases (invalidate_one codec known reason id l).0) [
        | inl (_, done) ↦
            let (logged, loads, entries) =
              invalidate_one_lem reason id known l r.events same fine r.kept done in
            rw done (
              each-Replays trusted reason known ids _ fine (ap ids_of entries ∙ same) (record {
                events = r.events ++ (invalidation id reason ∷ []);
                kept = logged;
                replayed = λ j. load_journal-add r.events _ _ _ _ (r.replayed j) (loads j);
              }))
        | inr (x, failed) ↦
            rw failed
              (subst (Replays trusted) (sym (invalidate_one-raises reason id known l x failed)) r)
      ]

  invalidate-Replays :
      (trusted : Dict String) (reason : String) (ids : List String) (l : EvidenceLedger)
      → Replays trusted l
      → Replays trusted (invalidate codec ids reason l).1
  unfolding invalidate ◌>>=◌
  invalidate-Replays trusted reason ids l r = elim (Bool-cases (bad_text codec 500 reason)) [
    | inl bad ↦ rw bad r
    | inr fine ↦ rw fine (each-Replays trusted reason (ids_of l.entries) ids l fine refl r)
  ]

  unfoldable pub call : Call → EvidenceLedger → EvidenceLedger
  call (append_call e) l = (append codec e l).1
  call (invalidate_call ids reason) l = (invalidate codec ids reason l).1

  unfoldable pub history : List Call → EvidenceLedger → EvidenceLedger
  history [] l = l
  history (c ∷ cs) l = history cs (call c l)

  history-Replays :
      (trusted : Dict String) (cs : List Call) (l : EvidenceLedger)
      → Replays trusted l
      → Replays trusted (history cs l)
  unfolding history call
  history-Replays trusted [] l r = r
  history-Replays trusted (append_call e ∷ cs) l r =
      history-Replays trusted cs _ (append-Replays trusted e l r)
  history-Replays trusted (invalidate_call ids reason ∷ cs) l r =
      history-Replays trusted cs _ (invalidate-Replays trusted reason ids l r)

  -- After any calls on a new ledger with an empty journal, raising or not, the journal replays
  -- without error, in a new ledger with the same trusted validators, to the same entries and
  -- invalidations: the loaded ledger differs from the one that wrote only by its own journal.
  pub journal_round_trip :
      (trusted : Dict String) (cs : List Call) (j : Option (List Event))
      → (es : List Event) × ((history cs (new_ledger trusted (some []))).journal ≡ some es)
        × (load_journal codec es (new_ledger trusted j)
            ≡ (ok tt, at j (history cs (new_ledger trusted (some [])))))
  unfolding load_journal
  journal_round_trip trusted cs j =
      let r =
        history-Replays trusted cs (new_ledger trusted (some []))
          (record { events = []; kept = refl; replayed = λ j'. refl }) in
      (r.events, r.kept, r.replayed j)
