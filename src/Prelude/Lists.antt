-- ===== src/Prelude/Lists.antt =====
-- Lists of texts as Python's tuples and sets of `str`.
use Prim.Native.Nat.{ℕ, suc}
use Prim.Native.String.{String}
use mathlib.Core.Logic.{◌⊎◌}
use mathlib.Core.Bool.{Bool, true, false, not, ◌&&◌, ◌||◌}
use mathlib.Core.List.{List, [], ◌∷◌}
use text.Mathlib.Text.{◌==◌ as str_eq}

abbrev pub All {ℓ κ} : {A : Type ℓ} → (A → Type κ) → List A → Type κ
All P [] = Unit
All P (x ∷ xs) = P x × All P xs

abbrev pub Some {ℓ} : {A : Type ℓ} → (A → Type 0) → List A → Type 0
Some P [] = ⊥
Some P (x ∷ xs) = P x ⊎ Some P xs

abbrev pub length {ℓ} : {A : Type ℓ} → List A → ℕ
length [] = 0
length (x ∷ xs) = suc (length xs)

unfoldable pub is_empty {ℓ} : {A : Type ℓ} → List A → Bool
is_empty [] = true
is_empty (x ∷ xs) = false

unfoldable pub all {ℓ} : {A : Type ℓ} → (A → Bool) → List A → Bool
all p [] = true
all p (x ∷ xs) = p x && all p xs

unfoldable pub any {ℓ} : {A : Type ℓ} → (A → Bool) → List A → Bool
any p [] = false
any p (x ∷ xs) = p x || any p xs

-- `x in xs`
unfoldable pub contains : String → List String → Bool
contains x [] = false
contains x (y ∷ ys) = str_eq y x || contains x ys

-- `set(xs).issubset(ys)`, and `not (set(xs) - set(ys))`
unfoldable pub is_subset : List String → List String → Bool
is_subset [] ys = true
is_subset (x ∷ xs) ys = contains x ys && is_subset xs ys

-- `len(set(xs)) == len(xs)`
unfoldable pub is_distinct : List String → Bool
unfolding contains
is_distinct [] = true
is_distinct (x ∷ xs) = not (contains x xs) && is_distinct xs
