-- ===== src/Runtime/Json/Paths.antt =====
-- What can be reached inside a value that `_secret_safe` returns.
use artifex_dev.Prelude.{String, ◌≡◌, ◌⊎◌, inl, inr, refl, List, [], ◌∷◌, All}
use artifex_dev.Runtime.Json.{
  Json, text, array, object, Items, end, item, Fields, done, field, secret_safe,
}
use artifex_dev.Runtime.Json.Secrets.{
  IsSensitive, IsSafe, AreSafe, FieldsSafe, safe_null, safe_flag, safe_number, scrubbed, safe_array,
  safe_object, safe_item, redacted, plain, secret_safe-IsSafe,
}

pub data ItemOf (x : Json) : Items → Type 0 where
  first_item : {xs : Items} → ItemOf x (item x xs)
  later_item : {y : Json} {xs : Items} → ItemOf x xs → ItemOf x (item y xs)

pub data FieldOf (key : String) (x : Json) : Fields → Type 0 where
  first_field : {fs : Fields} → FieldOf key x (field key x fs)
  later_field :
      {k : String} {y : Json} {fs : Fields} → FieldOf key x fs → FieldOf key x (field k y fs)

-- The value holds `y` inside of fields with these keys, from the outermost on.
pub data Reach : Json → List String → Json → Type 0 where
  here : {x : Json} → Reach x [] x
  in_array :
      {xs : Items} {x y : Json} {keys : List String}
      → ItemOf x xs
      → Reach x keys y
      → Reach (array xs) keys y
  in_object :
      {fs : Fields} {key : String} {x y : Json} {keys : List String}
      → FieldOf key x fs
      → Reach x keys y
      → Reach (object fs) (key ∷ keys) y

-- Not a text, or one that was scrubbed.
abbrev pub IsScrubbed : (String → String) → Json → Type 0
IsScrubbed scrub (text s) = (t : String) × (s ≡ scrub t)
IsScrubbed scrub _ = Unit

-- The marker, or a scrubbed value that no sensitive key leads to.
abbrev pub IsClean : (String → String) → List String → Json → Type 0
IsClean scrub keys y =
    (y ≡ text "[REDACTED]") ⊎ (All (λ key. ¬ IsSensitive key) keys × IsScrubbed scrub y)

module _ (scrub : String → String) where
  whole-IsClean : (x : Json) → IsSafe scrub x → IsClean scrub [] x
  whole-IsClean x safe_null = inr (tt, tt)
  whole-IsClean x (safe_flag b) = inr (tt, tt)
  whole-IsClean x (safe_number n) = inr (tt, tt)
  whole-IsClean x (scrubbed s) = inr (tt, (s, refl))
  whole-IsClean x (safe_array s) = inr (tt, tt)
  whole-IsClean x (safe_object s) = inr (tt, tt)

  array-AreSafe : (xs : Items) → IsSafe scrub (array xs) → AreSafe scrub xs
  array-AreSafe xs (safe_array s) = s

  object-FieldsSafe : (fs : Fields) → IsSafe scrub (object fs) → FieldsSafe scrub fs
  object-FieldsSafe fs (safe_object s) = s

  item-IsSafe : (x : Json) (xs : Items) → ItemOf x xs → AreSafe scrub xs → IsSafe scrub x
  item-IsSafe x end m s = elim m [ ]
  item-IsSafe x (item _ xs) first_item (safe_item s ss) = s
  item-IsSafe x (item y xs) (later_item m) (safe_item s ss) = item-IsSafe x xs m ss

  -- A field is the marker, or safe under a key that is not sensitive.
  field-IsSafe :
      (key : String) (x : Json) (fs : Fields)
      → FieldOf key x fs
      → FieldsSafe scrub fs
      → (x ≡ text "[REDACTED]") ⊎ ((¬ IsSensitive key) × IsSafe scrub x)
  field-IsSafe key x done m s = elim m [ ]
  field-IsSafe key x (field _ _ fs) first_field (redacted k ss) = inl refl
  field-IsSafe key x (field _ _ fs) first_field (plain k s ss) = inr (k, s)
  field-IsSafe key x (field k y fs) (later_field m) (redacted j ss) = field-IsSafe key x fs m ss
  field-IsSafe key x (field k y fs) (later_field m) (plain j s ss) = field-IsSafe key x fs m ss

  marker_only :
      (x y : Json) (keys : List String)
      → x ≡ text "[REDACTED]"
      → Reach x keys y
      → y ≡ text "[REDACTED]"
  marker_only x y keys e here = e
  marker_only x y keys e (in_array m r) = cc
  marker_only x y keys e (in_object m r) = cc

  under_key :
      (key : String) (keys : List String) (y : Json)
      → ¬ IsSensitive key
      → IsClean scrub keys y
      → IsClean scrub (key ∷ keys) y
  under_key key keys y k (inl marker) = inl marker
  under_key key keys y k (inr (ks, s)) = inr ((k, ks), s)

  Reach-IsClean :
      (x y : Json) (keys : List String) → Reach x keys y → IsSafe scrub x → IsClean scrub keys y
  Reach-IsClean x y [] here s = whole-IsClean x s
  Reach-IsClean (array xs) y keys (in_array {x = x} m r) s =
      Reach-IsClean x y keys r (item-IsSafe x xs m (array-AreSafe xs s))
  Reach-IsClean (object fs) y (key ∷ keys) (in_object {x = x} m r) s =
      elim (field-IsSafe key x fs m (object-FieldsSafe fs s)) [
        | inl marker ↦ inl (marker_only x y keys marker r)
        | inr (k, safe) ↦ under_key key keys y k (Reach-IsClean x y keys r safe)
      ]

  -- Whatever is reached inside a value that `_secret_safe` returned, through arrays and through
  -- fields with any keys, is "[REDACTED]"; or none of the keys on the way has, case-folded, "secret",
  -- "password", "token", "api_key" or "credential_value" in it, and if it is a text, it is one that
  -- `scrub_secrets` returned.
  pub secret_safe-IsClean :
      (x y : Json) (keys : List String) → Reach (secret_safe scrub x) keys y → IsClean scrub keys y
  secret_safe-IsClean x y keys r =
      Reach-IsClean (secret_safe scrub x) y keys r (secret_safe-IsSafe scrub x)
