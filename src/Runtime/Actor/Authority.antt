-- ===== src/Runtime/Actor/Authority.antt =====
-- What it takes to be allowed an action.
use artifex_dev.Prelude.{
  ℕ, ◌<◌, String, ◌≡◌, ◌↔◌, ◌⊎◌, inl, inr, refl, true, false, Option, none, some, List, ok, raise,
  str_eq, eq_iff, contains, arith, folds_to, Option-cases, Bool-cases, not, if◌then◌else◌, is_blank,
  strip, ◌||◌,
}
use artifex_dev.Runtime.Actor.{
  ActorPrincipal, named, DelegationGrant, grant_permits, require_action, is_anonymous,
  actor_principal, expires_by, not_authenticated, lacks_authority,
}

-- The action is named, or the wildcard is.
abbrev pub Lists : List String → String → Type 0
Lists actions action = (contains action actions ≡ true) ⊎ (contains "*" actions ≡ true)

-- A time before the expiry, if there is one.
pub data Before (t : ℕ) : Option ℕ → Type 0 where
  never : Before t none
  until : {e : ℕ} → t < e → Before t (some e)

pub record Delegated (p : ActorPrincipal) (g : DelegationGrant) (action project_id : String)
    (now : ℕ) : Type 0 where
  pub held : p.delegation ≡ some g
  pub own : p.actor_id ≡ g.delegate_id
  pub project : project_id ≡ g.project_id
  pub live : Before now g.expires_at
  pub listed : Lists g.allowed_actions action

grant-Delegated :
    (p : ActorPrincipal) (g : DelegationGrant) (action project_id : String) (now : ℕ)
    → p.delegation ≡ some g
    → grant_permits g p.actor_id project_id action now ≡ true
    → Delegated p g action project_id now
unfolding grant_permits
grant-Delegated p g action project_id now held h = record {
  held = held;
  own = ground (arith, eq_iff p.actor_id g.delegate_id);
  project = ground (arith, eq_iff project_id g.project_id);
  live = live_by g.expires_at (ground arith);
  listed = ground arith;
}
  where
    live_by : (e : Option ℕ) → not (expires_by e now) ≡ true → Before now e
    live_by none k = never
    live_by (some t) k = until (ground arith)

require-authorized :
    (p : ActorPrincipal) (action project_id : String) (now : ℕ)
    → require_action p action project_id now ≡ ok tt
    → (p.authenticated ≡ true)
      × (folds_to p.actor_id "anonymous" ≡ false)
      × (Lists p.direct_permissions action
          ⊎ ((g : DelegationGrant) × Delegated p g action project_id now))
unfolding require_action is_anonymous
require-authorized p action project_id now h = (
  ground arith,
  ground arith,
  elim (Option-cases p.delegation) [
    | inl nothing ↦ inl (ground arith)
    | inr (g, held) ↦ elim (Bool-cases (grant_permits g p.actor_id project_id action now)) [
      | inl yes' ↦ inr (g, grant-Delegated p g action project_id now held yes')
      | inr no' ↦ inl (ground arith)
    ]
  ],
)

Delegated-permits :
    (p : ActorPrincipal) (g : DelegationGrant) (action project_id : String) (now : ℕ)
    → Delegated p g action project_id now
    → grant_permits g p.actor_id project_id action now ≡ true
unfolding grant_permits
Delegated-permits p g action project_id now d = ground (
  arith,
  eq_iff p.actor_id g.delegate_id,
  eq_iff project_id g.project_id,
  lives g.expires_at d.live,
  d.listed,
)
  where
    lives : (e : Option ℕ) → Before now e → expires_by e now ≡ false
    lives none never = refl
    lives (some t) (until l) = ground arith

authorized-require :
    (p : ActorPrincipal) (action project_id : String) (now : ℕ)
    → (p.authenticated ≡ true)
      × (folds_to p.actor_id "anonymous" ≡ false)
      × (Lists p.direct_permissions action
          ⊎ ((g : DelegationGrant) × Delegated p g action project_id now))
    → require_action p action project_id now ≡ ok tt
unfolding require_action is_anonymous
authorized-require p action project_id now (a, b, inl l) = ground arith
authorized-require p action project_id now (a, b, inr (g, d)) =
    ground (arith, d.held, Delegated-permits p g action project_id now d)

-- `require` returns exactly for an authenticated actor that is not named "anonymous" and that has
-- the action, or the wildcard, directly or by a delegation that is its own, is for this project
-- and has not expired.
pub require_iff :
    (p : ActorPrincipal) (action project_id : String) (now : ℕ)
    → (require_action p action project_id now ≡ ok tt) ↔ (
        (p.authenticated ≡ true)
        × (folds_to p.actor_id "anonymous" ≡ false)
        × (Lists p.direct_permissions action
            ⊎ ((g : DelegationGrant) × Delegated p g action project_id now)))
require_iff p action project_id now =
    (require-authorized p action project_id now, authorized-require p action project_id now)

-- A plain name has every authority or none: it is refused every action if it is blank, the local
-- client's name or some case of "anonymous", and otherwise it may do everything.
pub named-all_or_none :
    (name action project_id : String) (now : ℕ)
    → require_action (actor_principal (named name)) action project_id now ≡ (
        if is_blank name || folds_to (strip name) "anonymous"
        then raise not_authenticated
        else if str_eq (strip name) "managed-service-local-client"
        then raise lacks_authority
        else ok tt)
unfolding require_action actor_principal is_anonymous is_blank contains
named-all_or_none name action project_id now = ground arith
