-- ===== src/Prelude/Maps.antt =====
-- Python's `dict` with `str` keys, in insertion order.
use Prim.Native.Nat.{Ordering}
use Prim.Native.String.{String, compare}
use mathlib.Core.Path.{◌≡◌, refl}
use mathlib.Core.Option.{Option, none, some}
use mathlib.Core.List.{List, [], ◌∷◌}
use native.Mathlib.Omega.{arith}
use text.Mathlib.Text.{◌==◌ as str_eq}
use text.Mathlib.TextEquality.{eq_iff}
use artifex_dev.Prelude.Tests.{if◌then◌else◌}

abbrev pub Dict {ℓ} : Type ℓ → Type ℓ
Dict V = List (String × V)

module _ {ℓ} {V : Type ℓ} where
  -- `d.get(k)`
  unfoldable pub lookup : String → Dict V → Option V
  lookup k [] = none
  lookup k ((j, v) ∷ d) = if str_eq j k then some v else lookup k d

  -- `d[k] = v`
  unfoldable pub put : String → V → Dict V → Dict V
  put k v [] = (k, v) ∷ []
  put k v ((j, w) ∷ d) = if str_eq j k then (k, v) ∷ d else (j, w) ∷ put k v d

  pub lookup-put :
      (k j : String) (v : V) (d : Dict V)
      → lookup j (put k v d) ≡ (if str_eq k j then some v else lookup j d)
  unfolding lookup put
  lookup-put k j v [] = refl
  lookup-put k j v ((i, w) ∷ d) =
      ground (arith, eq_iff k j, eq_iff i k, eq_iff i j, lookup-put k j v d)

  pub put-put : (k : String) (v w : V) (d : Dict V) → put k v (put k w d) ≡ put k v d
  unfolding put
  put-put k v w [] = ground (arith, eq_iff k k)
  put-put k v w ((i, u) ∷ d) = ground (arith, eq_iff i k, eq_iff k k, put-put k v w d)

  -- A dictionary by sorted keys, as `json.dumps(.., sort_keys=True)` writes it and as a loop over
  -- `sorted(d)` builds it.
  unfoldable pub insert_key : String → V → Dict V → Dict V
  insert_key k v [] = (k, v) ∷ []
  insert_key k v ((j, w) ∷ d) = elim (compare j k) [
    | Ordering.lt ↦ (j, w) ∷ insert_key k v d
    | _ ↦ (k, v) ∷ (j, w) ∷ d
  ]

  unfoldable pub sort_keys : Dict V → Dict V
  sort_keys [] = []
  sort_keys ((k, v) ∷ d) = insert_key k v (sort_keys d)

  lookup-insert_key :
      (j k : String) (v : V) (d : Dict V)
      → lookup j (insert_key k v d) ≡ (if str_eq k j then some v else lookup j d)
  unfolding lookup insert_key
  lookup-insert_key j k v [] = refl
  lookup-insert_key j k v ((i, w) ∷ d) =
      ground (arith, eq_iff k j, eq_iff i j, eq_iff i k, lookup-insert_key j k v d)

  pub lookup-sort_keys : (j : String) (d : Dict V) → lookup j (sort_keys d) ≡ lookup j d
  unfolding lookup sort_keys
  lookup-sort_keys j [] = refl
  lookup-sort_keys j ((k, v) ∷ d) =
      ground (arith, lookup-insert_key j k v (sort_keys d), lookup-sort_keys j d)
