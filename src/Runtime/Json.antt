-- ===== src/Runtime/Json.antt =====
-- The JSON values that audit payloads are made of, and `_secret_safe` of
-- src/artifex/runtime/store.py. `scrub_secrets` is a parameter.
pub mod Secrets
pub mod Paths
use artifex_dev.Prelude.{
  ℕ, String, ◌≡◌, Bool, true, false, ◌&&◌, ◌||◌, List, [], ◌∷◌, if◌then◌else◌, any, codes, casefold,
  ◌==◌, Option, none, some, str_eq,
}

mutual
  pub data Json : Type 0 where
    null : Json
    flag : Bool → Json
    number : ℕ → Json
    text : String → Json
    array : Items → Json
    object : Fields → Json

  pub data Items : Type 0 where
    end : Items
    item : Json → Items → Items

  pub data Fields : Type 0 where
    done : Fields
    field : String → Json → Fields → Fields

-- `_SENSITIVE_KEYS`
abbrev pub sensitive_keys : List String
sensitive_keys = "secret" ∷ "password" ∷ "token" ∷ "api_key" ∷ "credential_value" ∷ []

unfoldable pub begins_with : List ℕ → List ℕ → Bool
begins_with [] s = true
begins_with (a ∷ p) [] = false
begins_with (a ∷ p) (c ∷ s) = a == c && begins_with p s

-- `marker in text`
unfoldable pub occurs_in : List ℕ → List ℕ → Bool
unfolding begins_with
occurs_in marker [] = begins_with marker []
occurs_in marker (c ∷ s) = begins_with marker (c ∷ s) || occurs_in marker s

-- `any(marker in key.casefold() for marker in _SENSITIVE_KEYS)`
unfoldable pub is_sensitive : String → Bool
unfolding any occurs_in
is_sensitive key = any (λ marker. occurs_in (codes marker) (casefold (codes key))) sensitive_keys

unfoldable mutual
  -- `_secret_safe(value)`, and `_secret_safe(item, key=key)` for a field.
  pub secret_safe : (String → String) → Json → Json
  secret_safe scrub null = null
  secret_safe scrub (flag b) = flag b
  secret_safe scrub (number n) = number n
  secret_safe scrub (text s) = text (scrub s)
  secret_safe scrub (array xs) = array (secret_safe_items scrub xs)
  secret_safe scrub (object fs) = object (secret_safe_fields scrub fs)

  pub secret_safe_items : (String → String) → Items → Items
  secret_safe_items scrub end = end
  secret_safe_items scrub (item x xs) = item (secret_safe scrub x) (secret_safe_items scrub xs)

  pub secret_safe_fields : (String → String) → Fields → Fields
  secret_safe_fields scrub done = done
  secret_safe_fields scrub (field key value fs) =
      field key (if is_sensitive key then text "[REDACTED]" else secret_safe scrub value)
        (secret_safe_fields scrub fs)

-- A list of texts, and an optional text or number, as JSON.
abbrev pub texts : List String → Json
texts ss = array (items ss)
  where
    items : List String → Items
    items [] = end
    items (s ∷ rest) = item (text s) (items rest)

abbrev pub optional_text : Option String → Json
optional_text none = null
optional_text (some s) = text s

-- `{**dict(payload), "actor": actor}`
abbrev pub with_field : Fields → String → Json → Fields
with_field done key value = field key value done
with_field (field k v fs) key value =
    if str_eq k key then field key value fs else field k v (with_field fs key value)
