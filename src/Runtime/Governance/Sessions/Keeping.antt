-- ===== src/Runtime/Governance/Sessions/Keeping.antt =====
-- A method of the session manager leaves the row of a closed session alone: rules for the steps of
-- a method, and the methods.
use artifex_dev.Prelude.{
  ℕ, String, ◌≡◌, refl, Bool, true, false, not, Option, none, some, ok, raise, arith, lookup,
  lookup-put, str_eq, eq_iff, ◌>>=◌, ◌⊎◌, inl, inr, Result, Result-cases, raise_if, continue,
}
use artifex_dev.Runtime.Actor.{AuthorizationError, ActorLike, ActorPrincipal, principal}
use artifex_dev.Runtime.Store.Tables.{FenceToken, Db, SessionRow, transaction, assert_fence, audit}
use artifex_dev.Runtime.Store.Sessions.{create_interaction_session, update_interaction_session}
use artifex_dev.Runtime.Governance.Base.{GovernanceError, Method, authorize, stored}
use artifex_dev.Runtime.Governance.Sessions.{
  InteractionState, active, disconnected, closed, state_name, InteractionSession, is_disconnected,
  require_session, require_active, ProjectRevision, move_session, disconnect, close, close_from,
  record_revision, check_run, check_workstream, or_fresh, answer, open_session, reconnect,
}

module _ (scrub_secrets : String → String) where
  update_keeps :
      (x expected state : String) (revision : ℕ) (token : FenceToken) (now : ℕ) (actor : ActorLike)
      (event id : String) (r : SessionRow) (db : Db)
      → str_eq expected "CLOSED" ≡ false
      → lookup id db.sessions ≡ some r
      → r.state ≡ "CLOSED"
      → lookup id
          (stored
            (update_interaction_session scrub_secrets x expected state revision token now actor
              event)
            db).1.sessions
        ≡ some r
  unfolding stored update_interaction_session transaction assert_fence audit ◌>>=◌
  update_keeps x expected state revision token now actor event id r db h found end =
      grind (arith, eq_iff, lookup-put)

  create_keeps :
      (s : SessionRow) (token : FenceToken) (now : ℕ) (actor : ActorLike) (id : String)
      (r : SessionRow) (db : Db)
      → lookup id db.sessions ≡ some r
      → lookup id
          (stored (create_interaction_session scrub_secrets s token now actor) db).1.sessions
        ≡ some r
  unfolding stored create_interaction_session transaction assert_fence audit ◌>>=◌
  create_keeps s token now actor id r db found =
      ground (arith, eq_iff s.session_id id, lookup-put s.session_id id s db.sessions)

  require_active-active :
      (x : String) (p : ActorPrincipal) (now : ℕ) (db : Db) (s : InteractionSession)
      → (require_active x p now db).0 ≡ ok s
      → s.state ≡ active
  unfolding require_active require_session ◌>>=◌
  require_active-active x p now db s h = grind arith

  -- The row of a closed session stays as it is, whether the method returns or raises.
  module _ (id : String) (r : SessionRow) where
    pub record Keeps {A : Type 0} (m : Method A) : Type 0 where
      pub at : (db : Db) → lookup id db.sessions ≡ some r → lookup id (m db).1.sessions ≡ some r

    Keeps-raise_if :
        {A : Type 0} (x : GovernanceError) (b : Bool) (m : Method A)
        → (b ≡ false → Keeps m)
        → Keeps (raise_if x b >>= λ _. m)
    unfolding ◌>>=◌
    Keeps-raise_if x true m h = record { at = λ db found. found }
    Keeps-raise_if x false m h = record { at = (h refl).at }

    Keeps-authorize :
        {A : Type 0} (a : Result AuthorizationError (Unit {0})) (m : Method A)
        → Keeps m
        → Keeps (authorize a >>= λ _. m)
    unfolding ◌>>=◌
    Keeps-authorize (raise x) m h = record { at = λ db found. found }
    Keeps-authorize (ok _) m h = record { at = h.at }

    -- A query, and then a method that may rely on what the query returns.
    Keeps-query :
        {A B : Type 0} (m : Method A) (f : A → Method B)
        → ((db : Db) → (m db).1 ≡ db)
        → ((a : A) (db : Db) → (m db).0 ≡ ok a → Keeps (f a))
        → Keeps (m >>= f)
    unfolding ◌>>=◌
    Keeps-query {A} m f same h = record {
      at = λ db found. by_result db found (Result-cases (m db).0);
    }
      where
        by_result :
            (db : Db)
            → lookup id db.sessions ≡ some r
            → ((a : A) × ((m db).0 ≡ ok a)) ⊎ ((e : GovernanceError) × ((m db).0 ≡ raise e))
            → lookup id (continue (m db).0 f (m db).1).1.sessions ≡ some r
        by_result db found (inl (a, e)) = rw e (rw (same db) ((h a db e).at db found))
        by_result db found (inr (x, e)) = rw e (rw (same db) found)

    -- A write, and then a query.
    Keeps-then :
        {A B : Type 0} (m : Method A) (q : Method B)
        → ((db : Db) → (q db).1 ≡ db)
        → Keeps m
        → Keeps (m >>= λ _. q)
    unfolding ◌>>=◌
    Keeps-then m q same h = record { at = λ db found. ground (arith, same (m db).1, h.at db found) }

    require_session-keeps : (x : String) (db : Db) → (require_session x db).1 ≡ db
    unfolding require_session
    require_session-keeps x db = refl

    require_active-keeps :
        (x : String) (p : ActorPrincipal) (now : ℕ) (db : Db) → (require_active x p now db).1 ≡ db
    unfolding require_active require_session ◌>>=◌
    require_active-keeps x p now db = ground arith

    module _ (end : r.state ≡ "CLOSED") where
      -- A session that is not CLOSED is moved.
      Keeps-move :
          (s : InteractionSession) (target : InteractionState) (p : ActorPrincipal) (event : String)
          (token : FenceToken) (now : ℕ)
          → str_eq (state_name s.state) "CLOSED" ≡ false
          → Keeps (move_session scrub_secrets s target p event token now)
      unfolding move_session
      Keeps-move s target p event token now h = record {
        at = λ db found.
            update_keeps s.session_id (state_name s.state) (state_name target) s.last_seen_revision
              token now (principal p) event id r db h found end;
      }

      pub Keeps-disconnect :
          (x : String) (p : ActorPrincipal) (token : FenceToken) (checked now : ℕ)
          → Keeps (disconnect scrub_secrets x p token checked now)
      unfolding disconnect
      Keeps-disconnect x p token checked now =
          Keeps-query _ _ (require_active-keeps x p checked) λ s db e.
            Keeps-then _ _ (require_session-keeps x) (
              Keeps-move s disconnected p _ token now
                (rw (require_active-active x p checked db s e) refl))

      pub Keeps-revision :
          (x : String) (revision : ℕ) (p : ActorPrincipal) (token : FenceToken) (checked now : ℕ)
          → Keeps (record_revision scrub_secrets x revision p token checked now)
      unfolding record_revision
      Keeps-revision x revision p token checked now = Keeps-then _ _ (require_session-keeps x) (
          Keeps-query _ _ (require_active-keeps x p checked) λ s db e. record {
            at = λ db found.
                update_keeps x "ACTIVE" "ACTIVE" revision token now (principal p) _ id r db refl
                  found end;
          })

      Keeps-close_from :
          (state : InteractionState) (x : String) (s : InteractionSession) (p : ActorPrincipal)
          (token : FenceToken) (checked now : ℕ)
          → s.state ≡ state
          → Keeps (close_from scrub_secrets state x s p token checked now)
      Keeps-close_from closed x s p token checked now e = record { at = λ db found. found }
      Keeps-close_from active x s p token checked now e = Keeps-raise_if _ _ _ λ own.
          Keeps-authorize _ _ (
            Keeps-then _ _ (require_session-keeps x)
              (Keeps-move s closed p _ token now (rw e refl)))
      Keeps-close_from disconnected x s p token checked now e = Keeps-raise_if _ _ _ λ own.
          Keeps-authorize _ _ (
            Keeps-then _ _ (require_session-keeps x)
              (Keeps-move s closed p _ token now (rw e refl)))

      pub Keeps-close :
          (x : String) (p : ActorPrincipal) (token : FenceToken) (checked now : ℕ)
          → Keeps (close scrub_secrets x p token checked now)
      unfolding close
      Keeps-close x p token checked now =
          Keeps-query _ _ (require_session-keeps x)
            λ s db e. Keeps-close_from s.state x s p token checked now refl

      not_closed :
          (state : InteractionState)
          → not (is_disconnected state) ≡ false
          → str_eq (state_name state) "CLOSED" ≡ false
      not_closed disconnected h = refl
      not_closed active h = cc
      not_closed closed h = cc

      pub Keeps-reconnect :
          (token_hash : String → String) (x secret : String) (p : ActorPrincipal)
          (token : FenceToken) (checked now : ℕ)
          → Keeps (reconnect scrub_secrets token_hash x secret p token checked now)
      unfolding reconnect
      Keeps-reconnect token_hash x secret p token checked now =
          Keeps-query _ _ (require_session-keeps x) λ s db e. Keeps-raise_if _ _ _ λ waiting.
            Keeps-raise_if _ _ _ λ own.
              Keeps-query _ _ (λ db. refl)
                λ row db e'. Keeps-raise_if _ _ _ λ known. Keeps-authorize _ _ (
                  Keeps-then _ _ (require_session-keeps x)
                    (Keeps-move s active p _ token now (not_closed s.state waiting)))

    check_run-keeps :
        (project : String) (workstream run : Option String) (db : Db)
        → (check_run project workstream run db).1 ≡ db
    unfolding ◌>>=◌
    check_run-keeps project workstream none db = refl
    check_run-keeps project workstream (some x) db = ground arith

    check_workstream-keeps :
        (project : String) (workstream : Option String) (db : Db)
        → (check_workstream project workstream db).1 ≡ db
    unfolding ◌>>=◌
    check_workstream-keeps project none db = refl
    check_workstream-keeps project (some x) db = ground arith

    answer-keeps : (x secret : String) (db : Db) → (answer x secret db).1 ≡ db
    unfolding require_session ◌>>=◌
    answer-keeps x secret db = ground arith

    pub Keeps-open :
        (token_hash : String → String) (revision : ProjectRevision) (p : ActorPrincipal)
        (workstream run session : Option String) (fresh secret : String) (token : FenceToken)
        (checked now : ℕ)
        → Keeps (
            open_session scrub_secrets token_hash revision p workstream run session fresh secret
              token checked now)
    unfolding open_session
    Keeps-open token_hash revision p workstream run session fresh secret token checked now =
        Keeps-authorize _ _ (
          Keeps-raise_if _ _ _ λ client.
            Keeps-query _ _ (check_run-keeps revision.project_id workstream run) λ u db e.
              Keeps-query _ _ (check_workstream-keeps revision.project_id workstream) λ u db e.
                Keeps-then _ _ (answer-keeps (or_fresh session fresh) secret) (record {
                  at = λ db found. create_keeps _ token now (principal p) id r db found;
                }))
