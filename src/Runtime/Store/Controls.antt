-- ===== src/Runtime/Store/Controls.antt =====
-- `set_operational_control` and the queries of the controls of src/artifex/runtime/store.py.
use Prim.Native.String.{◌++◌ as append}
use artifex_dev.Prelude.{
  ℕ, String, Bool, ◌&&◌, Option, none, some, List, [], ◌∷◌, if◌then◌else◌, modify, raise_if, ◌>>◌,
  str_eq, ◌≡◌, refl, arith, eq_iff,
}
use artifex_dev.Runtime.Actor.{ActorLike, is_unidentified, actor_principal}
use artifex_dev.Runtime.Json.{number, text, field, done}
use artifex_dev.Runtime.Store.Tables.{
  unidentified_actor, OperationalControl, FenceToken, Method, transaction, assert_fence, audit,
}

-- The two columns are the primary key.
abbrev pub has_scope : String → String → OperationalControl → Bool
has_scope scope_type scope_id c = str_eq c.scope_type scope_type && str_eq c.scope_id scope_id

-- `operational_control`
unfoldable pub find_control : String → String → List OperationalControl → Option OperationalControl
find_control scope_type scope_id [] = none
find_control scope_type scope_id (c ∷ cs) =
    if has_scope scope_type scope_id c then some c else find_control scope_type scope_id cs

-- `INSERT INTO operational_controls .. ON CONFLICT(scope_type, scope_id) DO UPDATE SET ..`
unfoldable pub put_control : OperationalControl → List OperationalControl → List OperationalControl
put_control c [] = c ∷ []
put_control c (d ∷ ds) =
    if has_scope c.scope_type c.scope_id d then c ∷ ds else d ∷ put_control c ds

pub find-put_control :
    (c : OperationalControl) (kind id : String) (cs : List OperationalControl)
    → find_control kind id (put_control c cs)
      ≡ (if has_scope kind id c then some c else find_control kind id cs)
unfolding find_control put_control
find-put_control c kind id [] = refl
find-put_control c kind id (d ∷ ds) = ground (
  arith,
  eq_iff c.scope_type kind,
  eq_iff c.scope_id id,
  eq_iff d.scope_type kind,
  eq_iff d.scope_id id,
  eq_iff d.scope_type c.scope_type,
  eq_iff d.scope_id c.scope_id,
  find-put_control c kind id ds,
)

module _ (scrub_secrets : String → String) where
  unfoldable pub set_operational_control :
      String
      → String
      → Option String
      → String
      → String
      → ℕ
      → FenceToken
      → ℕ
      → ActorLike
      → Method (Unit {0})
  set_operational_control scope_type scope_id project_id state reason generation token now actor =
      do
        raise_if unidentified_actor (is_unidentified actor)
        transaction (do
          assert_fence token now
          modify (λ db. record db {
            controls =
                put_control
                  (record {
                    scope_type = scope_type;
                    scope_id = scope_id;
                    project_id = project_id;
                    state = state;
                    reason = reason;
                    generation = generation;
                    actor_id = (actor_principal actor).actor_id;
                    updated_at = now;
                  })
                  db.controls;
          })
          audit scrub_secrets "OPERATIONAL_CONTROL_CHANGED" actor "operational_control"
              (append scope_type (append ":" scope_id)) now
              (field "state" (text state)
                (field "reason" (text reason) (field "generation" (number generation) done)))
              none)
