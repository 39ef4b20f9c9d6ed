-- ===== src/Runtime/Store/Examples.antt =====
-- Runs of the store's model, and its theorems at concrete inputs.
use artifex_dev.Prelude.{
  String, ◌≡◌, refl, some, [], ◌∷◌, ok, raise, ◌>>=◌, lookup, put, strip, lstrip, rstrip, is_space,
  is_blank, folds_to, casefold, fold_char, any,
}
use artifex_dev.Runtime.Actor.{ActorLike, named, actor_principal, is_unidentified, is_anonymous}
use artifex_dev.Runtime.Envelope.{ExecutionEnvelope}
use artifex_dev.Runtime.Json.{
  Json, object, field, text, done, secret_safe, secret_safe_fields, secret_safe_items, is_sensitive,
  occurs_in, begins_with,
}
use artifex_dev.Runtime.Json.Paths.{IsClean, later_field, first_field, in_object, here}
use artifex_dev.Runtime.Json.Paths
use artifex_dev.Runtime.Store.Tables.{
  StoreError, FenceToken, Db, empty_db, transaction, assert_fence, audit, lost_race,
}
use artifex_dev.Runtime.Store.Lease.{acquire_coordinator, renew_coordinator, next_generation}
use artifex_dev.Runtime.Store.Transitions.{
  Change, no_updates, insert, violates, add_row, transition_batch, apply_changes, apply_change,
  update_row, target_of,
}
use artifex_dev.Runtime.Store.Writes.{Write, batch_write, perform}
use artifex_dev.Runtime.Store.Writes.Growth.{Extends}
use artifex_dev.Runtime.Store.Writes.Guarantees
use artifex_dev.Runtime.Store.Fencing
use artifex_dev.Runtime.Store.Fencing.{Event, write, renewal, acquisition, history, happen, LeaseIs}

program : Unit {0}
unfolding ◌>>=◌ lookup put strip lstrip rstrip is_space is_blank folds_to casefold fold_char any
    actor_principal is_unidentified is_anonymous secret_safe secret_safe_fields secret_safe_items
    is_sensitive occurs_in begins_with transaction assert_fence audit acquire_coordinator
    renew_coordinator next_generation insert violates add_row transition_batch apply_changes
    apply_change update_row target_of perform history happen
program = tt

-- Parameters of the model that change nothing and hash nothing.
abbrev scrub : String → String
scrub s = s

abbrev hash : ExecutionEnvelope → String
hash e = e.envelope_id

-- Alice has held the lease since 100, for 30 seconds.
abbrev alice : FenceToken
alice = record { holder_id = "alice"; generation = 1; expires_at = 130 }

abbrev start : Db
start = record empty_db {
  lease = some (record { holder_id = "alice"; generation = 1; expires_at = 130 });
  workstreams =
      (
        "w",
        record {
          workstream_id = "w";
          project_id = "p";
          state = "READY";
          created_at = 100;
          updated_at = 100;
        },
      )
      ∷ [];
}

abbrev bob : FenceToken
bob = record { holder_id = "bob"; generation = 2; expires_at = 170 }

taken_over : (acquire_coordinator scrub "bob" 140 30 start).0 ≡ ok bob
unfolding program
taken_over = refl

acquire-grants_example :
    (bob.holder_id ≡ "bob")
    × (bob.generation ≡ 2)
    × LeaseIs (acquire_coordinator scrub "bob" 140 30 start).1.lease "bob" 2
acquire-grants_example = Fencing.acquire-grants scrub hash "bob" 140 30 start bob taken_over

abbrev activate : Change
activate = record {
  table = "workstreams";
  id_column = "workstream_id";
  identifier = "w";
  expected_state = "READY";
  target_state = "ACTIVE";
  updates = no_updates;
}

abbrev user : ActorLike
user = named "carol"

-- The second change of the batch finds the workstream ACTIVE already.
abbrev doubled : Write
doubled = batch_write (activate ∷ activate ∷ []) user

doubled_fails : (perform scrub hash doubled alice 120 start).0 ≡ raise lost_race
unfolding program
doubled_fails = refl

write_atomic_example : (perform scrub hash doubled alice 120 start).1 ≡ start
write_atomic_example =
    Guarantees.write_atomic scrub hash alice 120 doubled start lost_race doubled_fails

write-Extends_example :
    Extends scrub start (perform scrub hash (batch_write (activate ∷ []) user) alice 120 start).1
write-Extends_example =
    Guarantees.write-Extends scrub hash alice 120 (batch_write (activate ∷ []) user) start

-- Alice's first token is dead after Bob took over, and stays so when she acquires the lease again.
fenced_off_example :
    (x : StoreError) × (perform scrub hash (batch_write (activate ∷ []) user) alice 210 (
        history scrub hash
          (renewal bob 150 30 ∷ acquisition "alice" 200 30 ∷ [])
          (acquire_coordinator scrub "bob" 140 30 start).1)
      ≡ (
        raise x,
        history scrub hash
            (renewal bob 150 30 ∷ acquisition "alice" 200 30 ∷ [])
            (acquire_coordinator scrub "bob" 140 30 start).1,
      ))
fenced_off_example =
    Fencing.fenced_off scrub hash "bob" 140 30 start alice bob 120 refl taken_over
      (renewal bob 150 30 ∷ acquisition "alice" 200 30 ∷ []) (batch_write (activate ∷ []) user) 210

abbrev note : Json
note = object (field "Auth_Token" (text "abc") (field "note" (text "hello") done))

redacts :
    secret_safe scrub note
    ≡ object (field "Auth_Token" (text "[REDACTED]") (field "note" (text "hello") done))
unfolding program
redacts = refl

-- A sharp s folds to two letters, so that this key has "password" in it.
abbrev nested : Json
nested = object (field "config" (object (field "paßword" (text "abc") done)) done)

redacts_folded :
    secret_safe scrub nested
    ≡ object (field "config" (object (field "paßword" (text "[REDACTED]") done)) done)
unfolding program
redacts_folded = refl

secret_safe-IsClean_example : IsClean scrub ("note" ∷ []) (text "hello")
unfolding program
secret_safe-IsClean_example =
    Paths.secret_safe-IsClean scrub note (text "hello") ("note" ∷ [])
      (in_object (later_field first_field) here)
