-- ===== src/Runtime/Store/Requests/Blocking.antt =====
-- What decision requests do to the states of workstreams.
use artifex_dev.Prelude.{
  ℕ, String, ◌≡◌, ◌≢◌, refl, ap, subst, ◌∙◌, Bool, true, false, if◌then◌else◌, Option, none, some,
  [], ◌∷◌, All, ok, raise, arith, Dict, lookup, put, lookup-put, str_eq, eq_iff, ◌>>=◌, eq_refl,
  gets, raise_if-returns, bind-returns, query-returns, install-returns, Bool-cases, inl, inr, ◌⊎◌,
  Result,
}
use artifex_dev.Runtime.Actor.{ActorLike}
use artifex_dev.Runtime.Store.Tables.{
  StoreError, FenceToken, Db, Workstream, DecisionRequest, transaction, assert_fence, audit, Method,
  commit_or_rollback,
}
use artifex_dev.Runtime.Store.Requests.{
  block_workstream, resume_workstream, close_request, open_request, block_workstreams,
  create_decision_request, resume_workstreams, resolve_open, resolve_decision_request,
}

abbrev pub state_in : Option Workstream → Option String
state_in none = none
state_in (some w) = some w.state

-- The state of a workstream, if it is there.
abbrev pub state_of : String → Db → Option String
state_of id db = state_in (lookup id db.workstreams)

-- The entry of a dictionary in place of the old value, or BLOCKED in place of it.
abbrev pub replaced : Option String → Option String → Option String
replaced none old = old
replaced (some s) old = some s

abbrev pub blocked : Option String → Option String → Option String
blocked none old = old
blocked (some s) old = some "BLOCKED"

-- The old value is that of the entry, if there is one.
abbrev pub Was : Option String → Option String → Type 0
Was none old = Unit
Was (some s) old = old ≡ some s

-- No entry says BLOCKED.
abbrev pub IsOpen : Dict String → Type 0
IsOpen d = All (λ e. str_eq e.1 "BLOCKED" ≡ false) d

block_one :
    (project id expected : String) (now : ℕ) (db later : Db) (w : String)
    → block_workstream project id expected now db ≡ ok later
    → (state_of id db ≡ some expected)
      × (state_of w later ≡ (if str_eq id w then some "BLOCKED" else state_of w db))
      × (later.decision_requests ≡ db.decision_requests)
unfolding block_workstream
block_one project id expected now db later w h = grind (arith, eq_iff, lookup-put)

resume_one :
    (id target : String) (now : ℕ) (db later : Db) (w : String)
    → resume_workstream id target now db ≡ ok later
    → (state_of id db ≡ some "BLOCKED")
      × (state_of w later ≡ (if str_eq id w then some target else state_of w db))
      × (later.decision_requests ≡ db.decision_requests)
unfolding resume_workstream
resume_one id target now db later w h = grind (arith, eq_iff, lookup-put)

same_key : (id w : String) (db : Db) → (str_eq id w ≡ false) ⊎ (state_of id db ≡ state_of w db)
same_key id w db = elim (Bool-cases (str_eq id w)) [
  | inl here ↦ inr (ap (λ (k : String). state_of k db) ((eq_iff id w).0 here))
  | inr there ↦ inl there
]

-- One round and the rest, on the state of one workstream: `mid` is it between the two.
blocked_step :
    (here : Bool) (e : String) (entry at_id old mid last : Option String)
    → (here ≡ false) ⊎ (at_id ≡ old)
    → at_id ≡ some e
    → mid ≡ (if here then some "BLOCKED" else old)
    → Was entry mid
    → last ≡ blocked entry mid
    → Was (if here then some e else entry) old
      × (last ≡ blocked (if here then some e else entry) old)
blocked_step true e none at_id old mid last (inr k) a m was l = ground arith
blocked_step true e (some s) at_id old mid last (inr k) a m was l = ground arith
blocked_step true e entry at_id old mid last (inl k) a m was l = cc
blocked_step false e none at_id old mid last k a m was l = (tt, ground arith)
blocked_step false e (some s) at_id old mid last k a m was l = ground arith

resumed_step :
    (here : Bool) (e : String) (entry at_id old mid last : Option String)
    → (here ≡ false) ⊎ (at_id ≡ old)
    → str_eq e "BLOCKED" ≡ false
    → at_id ≡ some "BLOCKED"
    → mid ≡ (if here then some e else old)
    → (entry ≡ none) ⊎ (mid ≡ some "BLOCKED")
    → last ≡ replaced entry mid
    → (((if here then some e else entry) ≡ none) ⊎ (old ≡ some "BLOCKED"))
      × (last ≡ replaced (if here then some e else entry) old)
resumed_step true e none at_id old mid last (inr k) unblocked a m was l =
    (inr (ground arith), ground arith)
resumed_step true e (some s) at_id old mid last (inr k) unblocked a m was l =
    absurd (ground (arith, eq_iff e "BLOCKED"))
resumed_step true e entry at_id old mid last (inl k) unblocked a m was l = cc
resumed_step false e none at_id old mid last k unblocked a m was l = (inl refl, ground arith)
resumed_step false e (some s) at_id old mid last k unblocked a m (inr was) l =
    (inr (ground arith), ground arith)
resumed_step false e (some s) at_id old mid last k unblocked a m (inl was) l = cc

module _ (scrub_secrets : String → String) (now : ℕ) (actor : ActorLike) where
  pub block_all :
      (project request : String) (d : Dict String) (db : Db) (w : String)
      → (block_workstreams scrub_secrets project request d now actor db).0 ≡ ok tt
      → Was (lookup w d) (state_of w db)
        × (state_of w (block_workstreams scrub_secrets project request d now actor db).1
            ≡ blocked (lookup w d) (state_of w db))
        × ((block_workstreams scrub_secrets project request d now actor db).1.decision_requests
            ≡ db.decision_requests)
  unfolding block_workstreams lookup audit
  block_all project request [] db w h = (tt, refl, refl)
  block_all project request ((id, expected) ∷ d) db w h =
      let (later, wrote, e1, h1) = install-returns _ _ db tt h in
      let (u, logged, e2, h2) = bind-returns _ _ later tt h1 in
      let (was, now_at, same) = block_one project id expected now db later w wrote in
      let (rest_was, rest_at, rest_same) = block_all project request d _ w h2 in
      let (held, at_last) =
        blocked_step (str_eq id w) expected (lookup w d) (state_of id db) (state_of w db)
          (state_of w later) _ (same_key id w db) was now_at rest_was rest_at in
      (
        held,
        ap (λ (t : Result StoreError (Unit {0}) × Db). state_of w t.1) (e1 ∙ e2) ∙ at_last,
        ap (λ (t : Result StoreError (Unit {0}) × Db). t.1.decision_requests) (e1 ∙ e2)
            ∙ rest_same
            ∙ same,
      )

  resume_all :
      (request : String) (d : Dict String) (db : Db) (w : String)
      → IsOpen d
      → (resume_workstreams scrub_secrets request d now actor db).0 ≡ ok tt
      → ((lookup w d ≡ none) ⊎ (state_of w db ≡ some "BLOCKED"))
        × (state_of w (resume_workstreams scrub_secrets request d now actor db).1
            ≡ replaced (lookup w d) (state_of w db))
        × ((resume_workstreams scrub_secrets request d now actor db).1.decision_requests
            ≡ db.decision_requests)
  unfolding resume_workstreams lookup audit
  resume_all request [] db w unblocked h = (inl refl, refl, refl)
  resume_all request ((id, target) ∷ d) db w unblocked h =
      let (later, wrote, e1, h1) = install-returns _ _ db tt h in
      let (u, logged, e2, h2) = bind-returns _ _ later tt h1 in
      let (was, now_at, same) = resume_one id target now db later w wrote in
      let (rest_was, rest_at, rest_same) = resume_all request d _ w unblocked.1 h2 in
      let (held, at_last) =
        resumed_step (str_eq id w) target (lookup w d) (state_of id db) (state_of w db)
          (state_of w later) _ (same_key id w db) unblocked.0 was now_at rest_was rest_at in
      (
        held,
        ap (λ (t : Result StoreError (Unit {0}) × Db). state_of w t.1) (e1 ∙ e2) ∙ at_last,
        ap (λ (t : Result StoreError (Unit {0}) × Db). t.1.decision_requests) (e1 ∙ e2)
            ∙ rest_same
            ∙ same,
      )

-- A transaction that returns has run its body.
pub transaction-returns :
    {A : Type 0} (m : Method A) (db : Db) (a : A)
    → (transaction m db).0 ≡ ok a
    → (transaction m db ≡ m db) × ((m db).0 ≡ ok a)
unfolding transaction
transaction-returns {A} m db a h = by_outcome (m db) h
  where
    by_outcome :
        (t : Result StoreError A × Db)
        → (commit_or_rollback db t).0 ≡ ok a
        → (commit_or_rollback db t ≡ t) × (t.0 ≡ ok a)
    by_outcome (ok b, later) h' = (refl, h')
    by_outcome (raise x, later) h' = cc

pub fence-keeps : (token : FenceToken) (now : ℕ) (db : Db) → (assert_fence token now db).1 ≡ db
unfolding assert_fence ◌>>=◌
fence-keeps token now db = ground arith

lookup-put_self : {A : Type 0} (k : String) (v : A) (d : Dict A) → lookup k (put k v d) ≡ some v
lookup-put_self k v d = simp (lookup-put, eq_refl)

close_one :
    (id outcome resolution by : String) (now : ℕ) (db later : Db)
    → close_request id outcome resolution by now db ≡ ok later
    → later.workstreams ≡ db.workstreams
unfolding close_request
close_one id outcome resolution by now db later h = ground arith

opened :
    (id : String) (db : Db) (r : DecisionRequest) (o : Option DecisionRequest)
    → lookup id db.decision_requests ≡ some r
    → (gets {E = StoreError} (open_request id) db).0 ≡ ok o
    → (o ≡ none) ⊎ (o ≡ some r)
opened id db r o found h = ground arith

-- What `resolve_open` makes of a state.
abbrev pub resumed : Bool → Option String → Option String → Option String
resumed false entry old = old
resumed true entry old = replaced entry old

module _ (scrub_secrets : String → String) (now : ℕ) (actor : ActorLike) where
  resolve_open-effect :
      (r : DecisionRequest) (id outcome resolution : String) (restore : Bool) (db : Db) (w : String)
      → IsOpen r.blocked_from_states
      → (resolve_open scrub_secrets (some r) id outcome resolution restore now actor db).0 ≡ ok tt
      → state_of w
          (resolve_open scrub_secrets (some r) id outcome resolution restore now actor db).1
        ≡ resumed restore (lookup w r.blocked_from_states) (state_of w db)
  unfolding resolve_open audit
  resolve_open-effect r id outcome resolution true db w unblocked h =
      let (u, resumes, e1, h1) = bind-returns _ _ db tt h in
      let (held, at_last, same) =
        resume_all scrub_secrets now actor id r.blocked_from_states db w unblocked resumes in
      let (later, closes, e2, h2) = install-returns _ _ _ tt h1 in
      ap (λ (t : Result StoreError (Unit {0}) × Db). state_of w t.1) (e1 ∙ e2)
      ∙ ap (λ (t : Dict Workstream). state_in (lookup w t)) (close_one _ _ _ _ _ _ later closes)
      ∙ at_last
  resolve_open-effect r id outcome resolution false db w unblocked h =
      let (u, resumes, e1, h1) = query-returns _ _ db tt refl h in
      let (later, closes, e2, h2) = install-returns _ _ db tt h1 in
      ap (λ (t : Result StoreError (Unit {0}) × Db). state_of w t.1) (e1 ∙ e2)
      ∙ ap (λ (t : Dict Workstream). state_in (lookup w t)) (close_one _ _ _ _ _ db later closes)

  resolve_open-none :
      (id outcome resolution : String) (restore : Bool) (db : Db)
      → (resolve_open scrub_secrets none id outcome resolution restore now actor db).0 ≢ ok tt
  unfolding resolve_open
  resolve_open-none id outcome resolution restore db h = cc

module _ (scrub_secrets : String → String) (token : FenceToken) (now : ℕ) (actor : ActorLike) where
  pub create_effect :
      (r : DecisionRequest) (db : Db) (w : String)
      → (create_decision_request scrub_secrets r token now actor db).0 ≡ ok tt
      → Was (lookup w r.blocked_from_states) (state_of w db)
        × (state_of w (create_decision_request scrub_secrets r token now actor db).1
            ≡ blocked (lookup w r.blocked_from_states) (state_of w db))
        × (lookup r.decision_request_id
              (create_decision_request scrub_secrets r token now actor db).1.decision_requests
            ≡ some r)
  unfolding create_decision_request audit
  create_effect r db w h =
      let (known, e1, h1) = raise_if-returns _ _ _ db tt h in
      let (e2, h2) = transaction-returns _ db tt h1 in
      let (u, fenced, e3, h3) = query-returns _ _ db tt (fence-keeps token now db) h2 in
      let (given, e4, h4) = raise_if-returns _ _ _ db tt h3 in
      let (u', blocks, e5, h5) = bind-returns _ _ db tt h4 in
      let later =
        (block_workstreams scrub_secrets r.project_id r.decision_request_id r.blocked_from_states
          now actor db).1 in
      let (refused, tested, e6, h6) = query-returns _ _ later tt refl h5 in
      let (fresh, e7, h7) = raise_if-returns _ _ _ later tt h6 in
      let (u'', stored, e8, h8) = bind-returns _ _ later tt h7 in
      let whole = e1 ∙ e2 ∙ e3 ∙ e4 ∙ e5 ∙ e6 ∙ e7 ∙ e8 in
      let (was, at_last, same) =
        block_all scrub_secrets now actor r.project_id r.decision_request_id r.blocked_from_states
          db w blocks in
      (
        was,
        ap (λ (t : Result StoreError (Unit {0}) × Db). state_of w t.1) whole ∙ at_last,
        ap
              (λ (t : Result StoreError (Unit {0}) × Db).
                lookup r.decision_request_id t.1.decision_requests)
              whole
            ∙ lookup-put_self r.decision_request_id r later.decision_requests,
      )

  pub resolve_effect :
      (id outcome resolution : String) (restore : Bool) (db : Db) (r : DecisionRequest) (w : String)
      → lookup id db.decision_requests ≡ some r
      → IsOpen r.blocked_from_states
      → (resolve_decision_request scrub_secrets id outcome resolution restore token now actor db).0
        ≡ ok tt
      → state_of w
          (resolve_decision_request scrub_secrets id outcome resolution restore token now actor
            db).1
        ≡ resumed restore (lookup w r.blocked_from_states) (state_of w db)
  unfolding resolve_decision_request audit
  resolve_effect id outcome resolution restore db r w found unblocked h =
      let (known, e1, h1) = raise_if-returns _ _ _ db tt h in
      let (e2, h2) = transaction-returns _ db tt h1 in
      let (u, fenced, e3, h3) = query-returns _ _ db tt (fence-keeps token now db) h2 in
      let (o, read, e4, h4) = query-returns _ _ db tt refl h3 in
      let whole = e1 ∙ e2 ∙ e3 ∙ e4 in
      let run : Option DecisionRequest → Result StoreError (Unit {0}) × Db =
        λ t. resolve_open scrub_secrets t id outcome resolution restore now actor db in
      elim (opened id db r o found read) [
        | inl none_there ↦ absurd (
            resolve_open-none scrub_secrets now actor id outcome resolution restore db
              (subst (λ (t : Option DecisionRequest). (run t).0 ≡ ok tt) none_there h4))
        | inr there ↦
            ap (λ (t : Result StoreError (Unit {0}) × Db). state_of w t.1) (whole ∙ ap run there)
            ∙ resolve_open-effect scrub_secrets now actor r id outcome resolution restore db w
                unblocked (subst (λ (t : Option DecisionRequest). (run t).0 ≡ ok tt) there h4)
      ]
