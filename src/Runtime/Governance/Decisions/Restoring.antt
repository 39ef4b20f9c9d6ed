-- ===== src/Runtime/Governance/Decisions/Restoring.antt =====
-- What a material decision blocks, and what its approval restores.
use Prim.Native.Nat.{Ordering}
use Prim.Native.String.{compare}
use artifex_dev.Prelude.{
  ℕ, String, ◌≡◌, ◌≢◌, refl, sym, ap, subst, ◌∙◌, inl, inr, true, false, not, ◌||◌, if◌then◌else◌,
  Option, none, some, List, [], ◌∷◌, Result, ok, arith, Dict, lookup, insert_key, sort_keys,
  lookup-sort_keys, contains, str_eq, eq_iff, ◌>>=◌, Result-cases, Bool-cases, raise_if-returns,
  bind-returns, query-returns, require,
}
use artifex_dev.Runtime.Actor.{ActorPrincipal, principal}
use artifex_dev.Runtime.Envelope.{Materiality}
use artifex_dev.Runtime.Store.Tables.{FenceToken, Db, Workstream, DecisionRequest}
use artifex_dev.Runtime.Store.Requests.{resolve_decision_request}
use artifex_dev.Runtime.Store.Requests.Blocking.{
  state_in, state_of, replaced, blocked, Was, IsOpen, create_effect, resolve_effect,
}
use artifex_dev.Runtime.Governance.Base.{
  GovernanceError, unknown_request, authorize-returns, stored-returns,
}
use artifex_dev.Runtime.Governance.Sessions.{or_fresh}
use artifex_dev.Runtime.Governance.Decisions.{
  DecisionOutcome, approve, outcome_name, is_approve, is_user, blockable, states_of, stored_request,
  check_run, request, create, resolve,
}

insert_key-IsOpen :
    (k v : String) (d : Dict String)
    → str_eq v "BLOCKED" ≡ false
    → IsOpen d
    → IsOpen (insert_key k v d)
unfolding insert_key
insert_key-IsOpen k v [] h o = (h, tt)
insert_key-IsOpen k v ((i, w) ∷ d) h o = by_order (insert_key-IsOpen k v d h o.1) (compare i k)
  where
    by_order :
        IsOpen (insert_key k v d)
        → (c : Ordering)
        → IsOpen (elim c [ Ordering.lt ↦ (i, w) ∷ insert_key k v d | _ ↦ (k, v) ∷ (i, w) ∷ d ])
    by_order ih Ordering.lt = (o.0, ih)
    by_order ih Ordering.eq = (h, o)
    by_order ih Ordering.gt = (h, o)

sort_keys-IsOpen : (d : Dict String) → IsOpen d → IsOpen (sort_keys d)
unfolding sort_keys
sort_keys-IsOpen [] o = tt
sort_keys-IsOpen ((k, v) ∷ d) o = insert_key-IsOpen k v (sort_keys d) o.0 (sort_keys-IsOpen d o.1)

live-open :
    (s : String) → not (str_eq s "READY" || str_eq s "ACTIVE") ≡ false → str_eq s "BLOCKED" ≡ false
live-open s h = elim (Bool-cases (str_eq s "READY")) [
  | inl ready ↦ rw ((eq_iff s "READY").0 ready) refl
  | inr other ↦
      let active : str_eq s "ACTIVE" ≡ true = ground arith in rw ((eq_iff s "ACTIVE").0 active) refl
]

blockable-open :
    (project state : String) (o : Option Workstream)
    → blockable project o ≡ ok state
    → (state_in o ≡ some state) × (str_eq state "BLOCKED" ≡ false)
unfolding blockable
blockable-open project state none h = cc
blockable-open project state (some x) h =
    let same : x.state ≡ state = ground arith in
    (
      ap (λ (t : String). some t) same,
      subst (λ (t : String). str_eq t "BLOCKED" ≡ false) same (live-open x.state (ground arith)),
    )

entry :
    (id w state : String) (ids : List String) (ws : Dict Workstream) (rest : Dict String)
    → state_in (lookup id ws) ≡ some state
    → lookup w rest ≡ (if contains w ids then state_in (lookup w ws) else none)
    → (if str_eq id w then some state else lookup w rest)
      ≡ (if str_eq id w || contains w ids then state_in (lookup w ws) else none)
entry id w state ids ws rest held entries = elim (Bool-cases (str_eq id w)) [
  | inl here ↦
      rw here
        (sym (ap (λ (k : String). state_in (lookup k ws)) (sym ((eq_iff id w).0 here)) ∙ held))
  | inr there ↦ rw there entries
]

-- The dictionary of the loop has the states of the affected workstreams.
states_of-entries :
    (project : String) (ids : List String) (ws : Dict Workstream) (d : Dict String) (w : String)
    → states_of project ids ws ≡ ok d
    → IsOpen d × (lookup w d ≡ (if contains w ids then state_in (lookup w ws) else none))
unfolding states_of contains lookup
states_of-entries project [] ws d w h =
    let whole : [] ≡ d = ground arith in
    subst (λ (t : Dict String). IsOpen t × (lookup w t ≡ none)) whole (tt, refl)
states_of-entries project (id ∷ ids) ws d w h =
    elim (Result-cases (blockable project (lookup id ws))) [
      | inr (x, bad) ↦ absurd (ground arith)
      | inl (state, good) ↦ elim (Result-cases (states_of project ids ws)) [
        | inr (y, bad) ↦ absurd (ground arith)
        | inl (rest, found) ↦
            let (held, unblocked) = blockable-open project state (lookup id ws) good in
            let (open_rest, entries) = states_of-entries project ids ws rest w found in
            let whole : (id, state) ∷ rest ≡ d = ground arith in
            subst
              (λ (t : Dict String).
                IsOpen t
                × (lookup w t
                    ≡ (if str_eq id w || contains w ids then state_in (lookup w ws) else none)))
              whole ((unblocked, open_rest), entry id w state ids ws rest held entries)
      ]
    ]

states_of-found :
    (project : String) (ids : List String) (ws : Dict Workstream) (d : Dict String) (w : String)
    → states_of project ids ws ≡ ok d
    → contains w ids ≡ true
    → lookup w d ≢ none
unfolding states_of contains lookup
states_of-found project [] ws d w h c e = cc
states_of-found project (id ∷ ids) ws d w h c e =
    elim (Result-cases (blockable project (lookup id ws))) [
      | inr (x, bad) ↦ absurd (ground arith)
      | inl (state, good) ↦ elim (Result-cases (states_of project ids ws)) [
        | inr (y, bad) ↦ absurd (ground arith)
        | inl (rest, found) ↦
            let whole : (id, state) ∷ rest ≡ d = ground arith in
            let e' : lookup w ((id, state) ∷ rest) ≡ none =
              subst (λ (t : Dict String). lookup w t ≡ none) (sym whole) e in
            elim (Bool-cases (str_eq id w)) [
              | inl here ↦ absurd (ground arith)
              | inr there ↦
                  states_of-found project ids ws rest w found (ground arith) (ground arith)
            ]
      ]
    ]

-- The entries of the sorted dictionary, in place of a state.
module _ (project : String) (ids : List String) (ws : Dict Workstream) (d : Dict String)
    (w : String) (old : Option String) (states : states_of project ids ws ≡ ok d) where
  restored_entry :
      replaced (lookup w (sort_keys d)) old
      ≡ (if contains w ids then state_in (lookup w ws) else old)
  restored_entry =
      let sorted = lookup-sort_keys w d in
      let (u, entries) = states_of-entries project ids ws d w states in
      elim (Bool-cases (contains w ids)) [
        | inl c ↦ let found = states_of-found project ids ws d w states c in ground arith
        | inr c ↦ ground arith
      ]

  blocked_entry :
      blocked (lookup w (sort_keys d)) old ≡ (if contains w ids then some "BLOCKED" else old)
  blocked_entry =
      let sorted = lookup-sort_keys w d in
      let (u, entries) = states_of-entries project ids ws d w states in
      elim (Bool-cases (contains w ids)) [
        | inl c ↦ let found = states_of-found project ids ws d w states c in ground arith
        | inr c ↦ ground arith
      ]

require-keeps :
    {A : Type 0} (x : GovernanceError) (o : Option A) (db : Db) → (require x o db).1 ≡ db
require-keeps x none db = refl
require-keeps x (some a) db = refl

check_run-keeps :
    (project : String) (run : Option String) (db : Db) → (check_run project run db).1 ≡ db
unfolding ◌>>=◌
check_run-keeps project none db = refl
check_run-keeps project (some x) db = ground arith

stored_request-keeps : (id : String) (db : Db) → (stored_request id db).1 ≡ db
unfolding stored_request ◌>>=◌
stored_request-keeps id db = ground arith

stored_request-returns :
    (id : String) (db : Db) (row r : DecisionRequest)
    → lookup id db.decision_requests ≡ some row
    → (stored_request id db).0 ≡ ok r
    → row ≡ r
unfolding stored_request ◌>>=◌
stored_request-returns id db row r found h = ground arith

module _ (scrub_secrets : String → String) where
  -- A request that returns has stored its row, and blocked the workstreams of the dictionary.
  request-blocks :
      (id project : String) (run : Option String) (question : String) (p : ActorPrincipal)
      (d : Dict String) (token : FenceToken) (now : ℕ) (db : Db) (r : DecisionRequest) (w : String)
      → (request scrub_secrets id project run question p d token now db).0 ≡ ok r
      → (r.state ≡ "OPEN")
        × (r.blocked_from_states ≡ sort_keys d)
        × (r.decision_request_id ≡ id)
        × (lookup id
              (request scrub_secrets id project run question p d token now db).1.decision_requests
            ≡ some r)
        × Was (lookup w (sort_keys d)) (state_of w db)
        × (state_of w (request scrub_secrets id project run question p d token now db).1
            ≡ blocked (lookup w (sort_keys d)) (state_of w db))
  unfolding request
  request-blocks id project run question p d token now db r w h =
      let (u, writes, e1, h1) = bind-returns _ _ db r h in
      let (returned, state) = stored-returns _ db u writes in
      let (was, at_last, kept) =
        create_effect scrub_secrets token now (principal p) _ db w returned in
      let there = ap (λ (t : Db). lookup id t.decision_requests) state ∙ kept in
      let same = stored_request-returns id _ _ r there h1 in
      let later =
        ap (λ (t : Result GovernanceError DecisionRequest × Db). t.1) e1
        ∙ stored_request-keeps id _
        ∙ state in
      (
        ap (λ (t : DecisionRequest). t.state) (sym same),
        ap (λ (t : DecisionRequest). t.blocked_from_states) (sym same),
        ap (λ (t : DecisionRequest). t.decision_request_id) (sym same),
        ap (λ (t : Db). lookup id t.decision_requests) later
            ∙ kept
            ∙ ap (λ (t : DecisionRequest). some t) same,
        was,
        ap (state_of w) later ∙ at_last,
      )

  -- What `create` has found when it returns.
  create-requests :
      (project question : String) (affected : List String) (p : ActorPrincipal)
      (run request_id : Option String) (fresh : String) (m : Materiality) (token : FenceToken)
      (checked now : ℕ) (db : Db) (r : DecisionRequest)
      → (create scrub_secrets project question affected p run request_id fresh m token checked now
          db).0
        ≡ ok r
      → (d : Dict String) × (states_of project affected db.workstreams ≡ ok d)
        × (create scrub_secrets project question affected p run request_id fresh m token checked now
              db
            ≡ request scrub_secrets
                (or_fresh request_id fresh)
                project
                run
                question
                p
                d
                token
                now
                db)
        × ((request scrub_secrets
              (or_fresh request_id fresh)
              project
              run
              question
              p
              d
              token
              now
              db).0
            ≡ ok r)
  unfolding create
  create-requests project question affected p run request_id fresh m token checked now db r h =
      let (allowed, e1, h1) = authorize-returns _ _ db r h in
      let (strategic, e2, h2) = raise_if-returns _ _ _ db r h1 in
      let (asked, e3, h3) = raise_if-returns _ _ _ db r h2 in
      let (distinct, e4, h4) = raise_if-returns _ _ _ db r h3 in
      let (u, inside, e5, h5) = query-returns _ _ db r (check_run-keeps project run db) h4 in
      let (found, read, e6, h6) = query-returns _ _ db r refl h5 in
      let (d, states, e7, h7) = query-returns _ _ db r refl h6 in
      (d, cc, e1 ∙ e2 ∙ e3 ∙ e4 ∙ e5 ∙ e6 ∙ e7, h7)

  -- What `resolve` has required when it returns, and the call of the store that it ends with.
  resolve-stores :
      (id : String) (outcome : DecisionOutcome) (resolution : String) (p : ActorPrincipal)
      (token : FenceToken) (checked now : ℕ) (db : Db) (r : DecisionRequest)
      → (resolve scrub_secrets id outcome resolution p token checked now db).0 ≡ ok r
      → (is_user p.actor_type ≡ true)
        × ((resolve_decision_request scrub_secrets id
              (outcome_name outcome)
              resolution
              (is_approve outcome)
              token
              now
              (principal p)
              db).0
            ≡ ok tt)
        × ((resolve scrub_secrets id outcome resolution p token checked now db).1
            ≡ (resolve_decision_request scrub_secrets id
                (outcome_name outcome)
                resolution
                (is_approve outcome)
                token
                now
                (principal p)
                db).1)
  unfolding resolve
  resolve-stores id outcome resolution p token checked now db r h =
      let (row, read, e1, h1) = query-returns _ _ db r refl h in
      let (value, known, e2, h2) =
        query-returns _ _ db r (require-keeps unknown_request row db) h1 in
      let (allowed, e3, h3) = authorize-returns _ _ db r h2 in
      let (by_user, e4, h4) = raise_if-returns _ _ _ db r h3 in
      let (given, e5, h5) = raise_if-returns _ _ _ db r h4 in
      let (u, writes, e6, h6) = bind-returns _ _ db r h5 in
      let (returned, later) = stored-returns _ db u writes in
      (
        ground arith,
        returned,
        ap (λ (t : Result GovernanceError DecisionRequest × Db). t.1) (e1 ∙ e2 ∙ e3 ∙ e4 ∙ e5 ∙ e6)
            ∙ stored_request-keeps id _
            ∙ later,
      )

  module _ (project question : String) (affected : List String) (p : ActorPrincipal)
      (run request_id : Option String) (fresh : String) (m : Materiality) (token : FenceToken)
      (checked now : ℕ) (db : Db) (r : DecisionRequest) (w : String) where
    -- When `create` returns a request, it is stored and OPEN, each affected workstream is BLOCKED
    -- and every other workstream is in the state that it was in.
    pub create_blocks :
        (create scrub_secrets project question affected p run request_id fresh m token checked now
            db).0
          ≡ ok r
        → (r.state ≡ "OPEN")
          × (lookup r.decision_request_id
                (create scrub_secrets project question affected p run request_id fresh m token
                  checked now db).1.decision_requests
              ≡ some r)
          × (state_of w
                (create scrub_secrets project question affected p run request_id fresh m token
                  checked now db).1
              ≡ (if contains w affected then some "BLOCKED" else state_of w db))
    create_blocks h =
        let (d, states, whole, h1) =
          create-requests project question affected p run request_id fresh m token checked now db r
            h in
        let (open_now, kept, same_id, there, was, at_last) =
          request-blocks (or_fresh request_id fresh) project run question p d token now db r w h1 in
        let after = ap (λ (t : Result GovernanceError DecisionRequest × Db). t.1) whole in
        (
          open_now,
          ap (λ (t : Db). lookup r.decision_request_id t.decision_requests) after
              ∙ ap
                  (λ (t : String).
                    lookup t
                      (request scrub_secrets (or_fresh request_id fresh) project run question p d
                        token now db).1.decision_requests)
                  same_id
              ∙ there,
          ap (state_of w) after
              ∙ at_last
              ∙ blocked_entry project affected db.workstreams d w (state_of w db) states,
        )

    -- When `create` has returned a request, and `resolve` returns for it with APPROVE later, in any
    -- state of the store that still holds the request as it was created, each affected workstream
    -- is again in the state that it was in before `create`, and no other workstream changes its
    -- state by the resolution, which was a user's.
    pub decision_restores :
        (resolution : String) (q : ActorPrincipal) (token' : FenceToken) (checked' now' : ℕ)
        (db' : Db) (r' : DecisionRequest)
        → (create scrub_secrets project question affected p run request_id fresh m token checked now
            db).0
          ≡ ok r
        → lookup r.decision_request_id db'.decision_requests ≡ some r
        → (resolve scrub_secrets r.decision_request_id approve resolution q token' checked' now'
            db').0
          ≡ ok r'
        → (is_user q.actor_type ≡ true)
          × (state_of w
                (resolve scrub_secrets r.decision_request_id approve resolution q token' checked'
                  now' db').1
              ≡ (if contains w affected then state_of w db else state_of w db'))
    decision_restores resolution q token' checked' now' db' r' h there h' =
        let (d, states, whole, h1) =
          create-requests project question affected p run request_id fresh m token checked now db r
            h in
        let (open_now, kept, same_id, stored_there, was, at_last) =
          request-blocks (or_fresh request_id fresh) project run question p d token now db r w h1 in
        let (by_user, returned, after) =
          resolve-stores r.decision_request_id approve resolution q token' checked' now' db' r'
            h' in
        let unblocked =
          sort_keys-IsOpen d (states_of-entries project affected db.workstreams d w states).0 in
        (
          by_user,
          ap (state_of w) after
              ∙ resolve_effect scrub_secrets token' now' (principal q) r.decision_request_id
                  "APPROVE" resolution true db' r w there (subst IsOpen (sym kept) unblocked)
                  returned
              ∙ ap (λ (t : Dict String). replaced (lookup w t) (state_of w db')) kept
              ∙ restored_entry project affected db.workstreams d w (state_of w db') states,
        )
