-- ===== src/Runtime/Json/Secrets.antt =====
-- What `_secret_safe` guarantees, at every depth.
use artifex_dev.Prelude.{
  ℕ, String, ◌≡◌, refl, ap, ◌∙◌, ◌⊎◌, inl, inr, Bool, true, false, Bool-cases, List, [], ◌∷◌, ◌++◌,
  any, arith, codes, casefold,
}
use artifex_dev.Runtime.Json.{
  Json, null, flag, number, text, array, object, Items, end, item, Fields, done, field, begins_with,
  occurs_in, is_sensitive, secret_safe, secret_safe_items, secret_safe_fields,
}

-- The case-folded key has the word in it somewhere.
abbrev pub Mentions : String → String → Type 0
Mentions key word =
    (before : List ℕ) × (after : List ℕ) × (casefold (codes key) ≡ before ++ (codes word ++ after))

abbrev pub IsSensitive : String → Type 0
IsSensitive key =
    Mentions key "secret"
    ⊎ (Mentions key "password"
        ⊎ (Mentions key "token" ⊎ (Mentions key "api_key" ⊎ Mentions key "credential_value")))

begins_with-append : (p s : List ℕ) → begins_with p (p ++ s) ≡ true
unfolding begins_with
begins_with-append [] s = refl
begins_with-append (a ∷ p) s = ground (arith, begins_with-append p s)

occurs_in-append : (p before after : List ℕ) → occurs_in p (before ++ (p ++ after)) ≡ true
unfolding occurs_in begins_with
occurs_in-append [] [] [] = refl
occurs_in-append [] [] (c ∷ after) = refl
occurs_in-append (a ∷ p) [] after = ground (arith, begins_with-append (a ∷ p) after)
occurs_in-append p (c ∷ before) after = ground (arith, occurs_in-append p before after)

begins_with-split : (p s : List ℕ) → begins_with p s ≡ true → (after : List ℕ) × (s ≡ p ++ after)
unfolding begins_with
begins_with-split [] s h = (s, refl)
begins_with-split (a ∷ p) [] h = cc
begins_with-split (a ∷ p) (c ∷ s) h =
    let (after, e) = begins_with-split p s (ground arith) in
    let same : c ≡ a = ground arith in (after, ground arith)

occurs_in-split :
    (p s : List ℕ)
    → occurs_in p s ≡ true
    → (before : List ℕ) × (after : List ℕ) × (s ≡ before ++ (p ++ after))
unfolding occurs_in
occurs_in-split p [] h = let (after, e) = begins_with-split p [] h in ([], after, e)
occurs_in-split p (c ∷ s) h = elim (Bool-cases (begins_with p (c ∷ s))) [
  | inl now ↦ let (after, e) = begins_with-split p (c ∷ s) now in ([], after, e)
  | inr later ↦
      let (before, after, e) = occurs_in-split p s (ground arith) in
      (c ∷ before, after, ap (λ (t : List ℕ). c ∷ t) e)
]

finds : String → String → Bool
unfolding occurs_in
finds key word = occurs_in (codes word) (casefold (codes key))

finds-Mentions : (key word : String) → finds key word ≡ true → Mentions key word
unfolding finds
finds-Mentions key word h = occurs_in-split (codes word) (casefold (codes key)) h

Mentions-finds : (key word : String) → Mentions key word → finds key word ≡ true
unfolding finds
Mentions-finds key word (before, after, e) =
    ap (λ (t : List ℕ). occurs_in (codes word) t) e ∙ occurs_in-append (codes word) before after

is_sensitive-IsSensitive : (key : String) → is_sensitive key ≡ true → IsSensitive key
unfolding is_sensitive any finds
is_sensitive-IsSensitive key h = elim (Bool-cases (finds key "secret")) [
  | inl a ↦ inl (finds-Mentions key "secret" a)
  | inr na ↦ elim (Bool-cases (finds key "password")) [
    | inl b ↦ inr (inl (finds-Mentions key "password" b))
    | inr nb ↦ elim (Bool-cases (finds key "token")) [
      | inl c ↦ inr (inr (inl (finds-Mentions key "token" c)))
      | inr nc ↦ elim (Bool-cases (finds key "api_key")) [
        | inl d ↦ inr (inr (inr (inl (finds-Mentions key "api_key" d))))
        | inr nd ↦ inr (inr (inr (inr (finds-Mentions key "credential_value" (ground arith)))))
      ]
    ]
  ]
]

plain-mentions : (key : String) → is_sensitive key ≡ false → ¬ IsSensitive key
unfolding is_sensitive any finds
plain-mentions key h (inl m) = ground (arith, Mentions-finds key "secret" m)
plain-mentions key h (inr (inl m)) = ground (arith, Mentions-finds key "password" m)
plain-mentions key h (inr (inr (inl m))) = ground (arith, Mentions-finds key "token" m)
plain-mentions key h (inr (inr (inr (inl m)))) = ground (arith, Mentions-finds key "api_key" m)
plain-mentions key h (inr (inr (inr (inr m)))) =
    ground (arith, Mentions-finds key "credential_value" m)

-- Every text was scrubbed, or stands for a value under a sensitive key; under a sensitive key
-- stands nothing else.
mutual
  pub data IsSafe (scrub : String → String) : Json → Type 0 where
    safe_null : IsSafe scrub null
    safe_flag : (b : Bool) → IsSafe scrub (flag b)
    safe_number : (n : ℕ) → IsSafe scrub (number n)
    scrubbed : (s : String) → IsSafe scrub (text (scrub s))
    safe_array : {xs : Items} → AreSafe scrub xs → IsSafe scrub (array xs)
    safe_object : {fs : Fields} → FieldsSafe scrub fs → IsSafe scrub (object fs)

  pub data AreSafe (scrub : String → String) : Items → Type 0 where
    safe_end : AreSafe scrub end
    safe_item :
        {x : Json} {xs : Items} → IsSafe scrub x → AreSafe scrub xs → AreSafe scrub (item x xs)

  pub data FieldsSafe (scrub : String → String) : Fields → Type 0 where
    safe_done : FieldsSafe scrub done
    redacted :
        {key : String} {fs : Fields}
        → IsSensitive key
        → FieldsSafe scrub fs
        → FieldsSafe scrub (field key (text "[REDACTED]") fs)
    plain :
        {key : String} {x : Json} {fs : Fields}
        → ¬ IsSensitive key
        → IsSafe scrub x
        → FieldsSafe scrub fs
        → FieldsSafe scrub (field key x fs)

mutual
  unfolding secret_safe secret_safe_items secret_safe_fields

  value-IsSafe : (scrub : String → String) (x : Json) → IsSafe scrub (secret_safe scrub x)
  value-IsSafe scrub null = safe_null
  value-IsSafe scrub (flag b) = safe_flag b
  value-IsSafe scrub (number n) = safe_number n
  value-IsSafe scrub (text s) = scrubbed s
  value-IsSafe scrub (array xs) = safe_array (items-AreSafe scrub xs)
  value-IsSafe scrub (object fs) = safe_object (fields-FieldsSafe scrub fs)

  items-AreSafe :
      (scrub : String → String) (xs : Items) → AreSafe scrub (secret_safe_items scrub xs)
  items-AreSafe scrub end = safe_end
  items-AreSafe scrub (item x xs) = safe_item (value-IsSafe scrub x) (items-AreSafe scrub xs)

  fields-FieldsSafe :
      (scrub : String → String) (fs : Fields) → FieldsSafe scrub (secret_safe_fields scrub fs)
  fields-FieldsSafe scrub done = safe_done
  fields-FieldsSafe scrub (field key x fs) = elim (Bool-cases (is_sensitive key)) [
    | inl secret ↦
        rw secret (redacted (is_sensitive-IsSensitive key secret) (fields-FieldsSafe scrub fs))
    | inr shown ↦
        rw shown
          (plain (plain-mentions key shown) (value-IsSafe scrub x) (fields-FieldsSafe scrub fs))
  ]

-- In a value that `_secret_safe` returns, at every depth, a field holds "[REDACTED]" if its
-- case-folded key has "secret", "password", "token", "api_key" or "credential_value" in it; under
-- any other key, and outside of fields, every text is one that `scrub_secrets` returned.
pub secret_safe-IsSafe : (scrub : String → String) (x : Json) → IsSafe scrub (secret_safe scrub x)
secret_safe-IsSafe scrub x = value-IsSafe scrub x
