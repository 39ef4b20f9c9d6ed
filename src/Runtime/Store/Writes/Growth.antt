-- ===== src/Runtime/Store/Writes/Growth.antt =====
-- Rules for what a part of a transaction may do: keep the lease, and add audit rows with safe
-- payloads behind those that are there.
use mathlib.Core.List.{append_assoc, append-nil}
use artifex_dev.Prelude.{
  ℕ, String, ◌≡◌, refl, sym, ap, ◌∙◌, Bool, true, false, Option, List, [], ◌∷◌, ◌++◌, All, Result,
  ok, raise, pure, fail, gets, modify, raise_if, lift, ◌>>=◌, arith, continue, not, Bool-cases, inl,
  inr,
}
use artifex_dev.Runtime.Actor.{ActorLike, AuthorizationError}
use artifex_dev.Runtime.Json.{Fields}
use artifex_dev.Runtime.Json.Secrets.{IsSafe, secret_safe-IsSafe}
use artifex_dev.Runtime.Store.Tables.{
  StoreError, FenceToken, Db, Method, AuditRow, audit, audit_row, assert_fence, transaction, holds,
  commit_or_rollback, stale_token,
}
use artifex_dev.Runtime.Store.Lease.{authorize}

module _ (scrub : String → String) where
  -- From one state to a later one: the same lease, and an audit that only grew, by safe rows.
  pub record Extends (db later : Db) : Type 0 where
    pub lease : later.lease ≡ db.lease
    pub rows : List AuditRow
    pub grown : later.audit ≡ db.audit ++ rows
    pub safe : All (λ r. IsSafe scrub r.payload) rows

  pub Extends-refl : (db : Db) → Extends db db
  Extends-refl db = record { lease = refl; rows = []; grown = sym (append-nil db.audit); safe = tt }

  All-++ :
      (xs ys : List AuditRow)
      → All (λ r. IsSafe scrub r.payload) xs
      → All (λ r. IsSafe scrub r.payload) ys
      → All (λ r. IsSafe scrub r.payload) (xs ++ ys)
  All-++ [] ys hx hy = hy
  All-++ (x ∷ xs) ys hx hy = (hx.0, All-++ xs ys hx.1 hy)

  pub Extends-trans : {a b c : Db} → Extends a b → Extends b c → Extends a c
  Extends-trans {a} p q = record {
    lease = q.lease ∙ p.lease;
    rows = p.rows ++ q.rows;
    grown =
        q.grown
        ∙ ap (λ (t : List AuditRow). t ++ q.rows) p.grown
        ∙ append_assoc a.audit p.rows q.rows;
    safe = All-++ p.rows q.rows p.safe q.safe;
  }

  -- A part of a transaction, whether it returns or raises.
  pub record Adds {A : Type 0} (m : Method A) : Type 0 where
    pub at : (db : Db) → Extends db (m db).1

  module _ {A : Type 0} where
    pub Adds-pure : (a : A) → Adds (pure a)
    Adds-pure a = record { at = Extends-refl }

    pub Adds-fail : (x : StoreError) → Adds (fail {A = A} x)
    Adds-fail x = record { at = Extends-refl }

    pub Adds-gets : (f : Db → A) → Adds (gets f)
    Adds-gets f = record { at = Extends-refl }

  pub Adds-raise_if : (x : StoreError) (b : Bool) → Adds (raise_if x b)
  Adds-raise_if x true = record { at = Extends-refl }
  Adds-raise_if x false = record { at = Extends-refl }

  pub Adds-audit :
      (event : String) (actor : ActorLike) (kind id : String) (now : ℕ) (payload : Fields)
      (correlation : Option String)
      → Adds (audit scrub event actor kind id now payload correlation)
  unfolding audit
  Adds-audit event actor kind id now payload correlation = record {
    at = λ db. record {
      lease = refl;
      rows = audit_row scrub event actor kind id now payload correlation ∷ [];
      grown = refl;
      safe = (secret_safe-IsSafe scrub _, tt);
    };
  }

  -- A change of the tables alone.
  pub Adds-modify :
      (f : Db → Db)
      → ((db : Db) → (f db).lease ≡ db.lease)
      → ((db : Db) → (f db).audit ≡ db.audit)
      → Adds (modify f)
  Adds-modify f hl ha = record {
    at = λ db. record {
      lease = hl db;
      rows = [];
      grown = ha db ∙ sym (append-nil db.audit);
      safe = tt;
    };
  }

  module _ {A B : Type 0} where
    continue-Extends :
        (r : Result StoreError A) (f : A → Method B) (db : Db)
        → ((a : A) → Adds (f a))
        → Extends db (continue r f db).1
    continue-Extends (ok a) f db h = (h a).at db
    continue-Extends (raise x) f db h = Extends-refl db

    pub Adds-bind :
        (m : Method A) (f : A → Method B) → Adds m → ((a : A) → Adds (f a)) → Adds (m >>= f)
    unfolding ◌>>=◌
    Adds-bind m f hm hf = record {
      at = λ db. let (r, db') = m db in Extends-trans (hm.at db) (continue-Extends r f db' hf);
    }

  -- The update of a row, which may find nothing to change.
  pub Adds-install :
      {A : Type 0} (f : Db → Result StoreError Db) (k : Method A)
      → ((db later : Db) → f db ≡ ok later → (later.lease ≡ db.lease) × (later.audit ≡ db.audit))
      → Adds k
      → Adds (gets f >>= λ updated. lift updated >>= λ db. modify (λ _. db) >>= λ _. k)
  unfolding ◌>>=◌
  Adds-install f k h hk = record { at = λ db. installed db (f db) refl }
    where
      installed :
          (db : Db) (r : Result StoreError Db)
          → f db ≡ r
          → Extends db ((lift r >>= λ later. modify (λ _. later) >>= λ _. k) db).1
      installed db (raise x) e = Extends-refl db
      installed db (ok later) e =
          let (same_lease, same_audit) = h db later e in
          Extends-trans
            (record {
              lease = same_lease;
              rows = [];
              grown = same_audit ∙ sym (append-nil db.audit);
              safe = tt;
            })
            (hk.at later)

  pub ruleset adds_rules = (
    Adds-pure, Adds-fail, Adds-gets, Adds-raise_if, Adds-audit, Adds-modify, Adds-bind,
    Adds-install,
  )

  -- A write that needs the fence, or that raises before it gets there.
  pub record IsGuarded (token : FenceToken) (now : ℕ) (m : Method (Unit {0})) : Type 0 where
    pub atomic : (db : Db) (x : StoreError) → (m db).0 ≡ raise x → (m db).1 ≡ db
    pub fenced : (db : Db) → (m db).0 ≡ ok tt → holds db.lease token now ≡ true
    pub extends : (db : Db) → Extends db (m db).1

  module _ (token : FenceToken) (now : ℕ) where
    pub IsGuarded-raise_if :
        (x : StoreError) (b : Bool) (m : Method (Unit {0}))
        → IsGuarded token now m
        → IsGuarded token now (raise_if x b >>= λ _. m)
    unfolding ◌>>=◌
    IsGuarded-raise_if x true m g = record {
      atomic = λ db y h. refl;
      fenced = λ db h. cc;
      extends = Extends-refl;
    }
    IsGuarded-raise_if x false m g = record {
      atomic = g.atomic;
      fenced = g.fenced;
      extends = g.extends;
    }

    pub IsGuarded-authorize :
        (r : Result AuthorizationError (Unit {0})) (m : Method (Unit {0}))
        → IsGuarded token now m
        → IsGuarded token now (authorize r >>= λ _. m)
    unfolding ◌>>=◌
    IsGuarded-authorize (raise x) m g = record {
      atomic = λ db y h. refl;
      fenced = λ db h. cc;
      extends = Extends-refl;
    }
    IsGuarded-authorize (ok _) m g = record {
      atomic = g.atomic;
      fenced = g.fenced;
      extends = g.extends;
    }

    rolled_back :
        (db : Db) (r : Result StoreError (Unit {0}) × Db) (x : StoreError)
        → (commit_or_rollback db r).0 ≡ raise x
        → (commit_or_rollback db r).1 ≡ db
    rolled_back db (ok a, d) x h = cc
    rolled_back db (raise y, d) x h = refl

    kept_or_extended :
        (db : Db) (r : Result StoreError (Unit {0}) × Db)
        → Extends db r.1
        → Extends db (commit_or_rollback db r).1
    kept_or_extended db (ok a, d) e = e
    kept_or_extended db (raise y, d) e = Extends-refl db

    fence_held :
        (body : Method (Unit {0})) (db : Db)
        → (transaction (assert_fence token now >>= λ _. body) db).0 ≡ ok tt
        → holds db.lease token now ≡ true
    unfolding transaction assert_fence ◌>>=◌
    fence_held body db h = elim (Bool-cases (holds db.lease token now)) [
      | inl held ↦ held
      | inr stale ↦ absurd (ground arith)
    ]

    -- The shape of every transaction that writes under a token.
    pub IsGuarded-transaction :
        (body : Method (Unit {0}))
        → Adds body
        → IsGuarded token now (transaction (assert_fence token now >>= λ _. body))
    IsGuarded-transaction body a = record {
      atomic = λ db. unfold transaction in rolled_back db _;
      fenced = λ db h. fence_held body db h;
      extends = λ db.
          unfold transaction in kept_or_extended db _ ((Adds-bind _ _ fence_adds (λ _. a)).at db);
    }
      where
        fence_adds : Adds (assert_fence token now)
        fence_adds = record {
          at = λ db.
              unfold assert_fence ◌>>=◌ in
              (Adds-raise_if stale_token (not (holds db.lease token now))).at db;
        }
