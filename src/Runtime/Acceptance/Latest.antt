-- ===== src/Runtime/Acceptance/Latest.antt =====
-- Who may decide, which attempt is decided, and who dispatched it.
use artifex_dev.Prelude.{
  ℕ, ◌≤◌, ltb, String, ◌≡◌, ◌≢◌, ◌⊎◌, refl, inl, inr, none, some, All, Some, false, Bool-cases,
  subst, Option, Option-cases, List, [], ◌∷◌, arith, str_eq, eq_iff,
}
use artifex_dev.Runtime.Actor.{
  ActorType, user, artifex_service, interaction_client, provider, agent, automation_system_actor,
  named, principal, ActorLike,
}
use artifex_dev.Runtime.Store.Tables.{Attempt, DispatchAuthorization}
use artifex_dev.Runtime.Coordinator.Base.{is_forbidden, is_outsider}
use artifex_dev.Runtime.Acceptance.{latest_finished, is_own_dispatch}

-- A name, or a principal that may decide by its type.
abbrev pub IsDecider : ActorLike → Type 0
IsDecider (named name) = Unit
IsDecider (principal p) =
    (p.actor_type ≡ user) ⊎ ((p.actor_type ≡ artifex_service) ⊎ (p.actor_type ≡ agent))

pub allowed-IsDecider : (a : ActorLike) → is_forbidden a ≡ false → IsDecider a
allowed-IsDecider (named name) h = tt
allowed-IsDecider (principal p) h = split p.actor_type h
  where
    split :
        (t : ActorType) → is_outsider t ≡ false → (t ≡ user) ⊎ ((t ≡ artifex_service) ⊎ (t ≡ agent))
    split user h = inl refl
    split artifex_service h = inr (inl refl)
    split agent h = inr (inr refl)
    split interaction_client h = cc
    split provider h = cc
    split automation_system_actor h = cc

-- A FINISHED attempt of the list, with the greatest ordinal of the FINISHED ones.
pub record IsLatest (attempts : List Attempt) (a : Attempt) : Type 0 where
  pub finished : a.state ≡ "FINISHED"
  pub among : Some (λ b. b ≡ a) attempts
  pub newest : All (λ b. (b.state ≢ "FINISHED") ⊎ (b.ordinal ≤ a.ordinal)) attempts

raise_newest :
    (m n : ℕ) (bs : List Attempt)
    → m ≤ n
    → All (λ b. (b.state ≢ "FINISHED") ⊎ (b.ordinal ≤ m)) bs
    → All (λ b. (b.state ≢ "FINISHED") ⊎ (b.ordinal ≤ n)) bs
raise_newest m n [] le h = tt
raise_newest m n (b ∷ bs) le (inl other, h) = (inl other, raise_newest m n bs le h)
raise_newest m n (b ∷ bs) le (inr small, h) = (inr (omega arith), raise_newest m n bs le h)

none_finished :
    (n : ℕ) (bs : List Attempt)
    → latest_finished bs ≡ none
    → All (λ b. (b.state ≢ "FINISHED") ⊎ (b.ordinal ≤ n)) bs
unfolding latest_finished
none_finished n [] h = tt
none_finished n (b ∷ bs) h = (inl (grind (arith, eq_iff)), none_finished n bs (ground arith))

pub latest_finished-IsLatest :
    (bs : List Attempt) (a : Attempt) → latest_finished bs ≡ some a → IsLatest bs a
unfolding latest_finished
latest_finished-IsLatest [] a h = cc
latest_finished-IsLatest (b ∷ bs) a h = elim (Bool-cases (str_eq b.state "FINISHED")) [
  | inr other ↦
      let rest = latest_finished-IsLatest bs a (ground arith) in
      record {
        finished = rest.finished;
        among = inr rest.among;
        newest = (inl (grind (arith, eq_iff)), rest.newest);
      }
  | inl over ↦
      let over' = (eq_iff b.state "FINISHED").0 over in
      elim (Option-cases (latest_finished bs)) [
        | inl missing ↦
            let same : b ≡ a = ground arith in
            subst (IsLatest (b ∷ bs)) same (record {
              finished = over';
              among = inl refl;
              newest = (inr (omega arith), none_finished b.ordinal bs missing);
            })
        | inr (c, there) ↦
            let rest = latest_finished-IsLatest bs c there in
            elim (Bool-cases (ltb b.ordinal c.ordinal)) [
              | inl less ↦
                  let same : c ≡ a = ground arith in
                  subst (IsLatest (b ∷ bs)) same (record {
                    finished = rest.finished;
                    among = inr rest.among;
                    newest = (inr (ground arith), rest.newest);
                  })
              | inr more ↦
                  let same : b ≡ a = ground arith in
                  subst (IsLatest (b ∷ bs)) same (record {
                    finished = over';
                    among = inl refl;
                    newest = (
                      inr (omega arith),
                      raise_newest c.ordinal b.ordinal bs (ground arith) rest.newest,
                    );
                  })
            ]
      ]
]

-- Nobody dispatched, or somebody else.
abbrev pub IsByOther : Option DispatchAuthorization → String → Type 0
IsByOther none actor_id = Unit
IsByOther (some d) actor_id = d.actor_id ≢ actor_id

pub other-IsByOther :
    (d : Option DispatchAuthorization) (id : String) → is_own_dispatch d id ≡ false → IsByOther d id
other-IsByOther none id h = tt
other-IsByOther (some d) id h = λ same. ground (arith, eq_iff d.actor_id id)
