-- ===== src/Runtime/Path/Containment.antt =====
-- An accepted path stays inside its workspace, and a prefix test on paths is one on their parts.
use Prim.Native.Char.{Char, code}
use Prim.Native.String.{◌++◌ as ◌<>◌}
use text.Mathlib.TextEquality.{Char-path}
use text.Mathlib.TextLemmas.{cons-append, nil-append, append_assoc as text_assoc}
use artifex_dev.Prelude.{
  ℕ, String, ◌≡◌, ◌≢◌, refl, sym, ap, ◌∙◌, true, false, ◌||◌, List, [], ◌∷◌, ◌++◌, All,
  if◌then◌else◌, ok, str_eq, eq_iff, has_char, split_at, has_prefix, join, contains, arith, ◌==◌,
  cons_head, Bool-cases, inl, inr,
}
use artifex_dev.Runtime.Path.{keep_names, posix_parts, as_posix, candidate_of, safe_relative_path}

-- What `split` gives for a character: no piece holds it.
Without : ℕ → String → Type 0
Without a s = has_char a s ≡ false

cons_head-Without :
    (a : ℕ) (c : Char) (ss : List String)
    → (code c == a) ≡ false
    → All (Without a) ss
    → All (Without a) (cons_head c ss)
unfolding Without has_char
cons_head-Without a c [] h w = (ground arith, tt)
cons_head-Without a c (s ∷ ss) h w = (ground arith, w.1)

split-Without : (a : ℕ) (s : String) → All (Without a) (split_at a s)
unfolding split_at Without
split-Without a String.[] = (unfold has_char in refl, tt)
split-Without a (String.◌∷◌ c s) = elim (Bool-cases (code c == a)) [
  | inl here ↦ rw here (unfold has_char in refl, split-Without a s)
  | inr other ↦ rw other (cons_head-Without a c _ other (split-Without a s))
]

-- A name: a part of a relative path that leads downwards.
pub record IsName (s : String) : Type 0 where
  pub not_empty : s ≢ ""
  pub not_here : s ≢ "."
  pub not_up : s ≢ ".."
  pub no_slash : has_char b'/' s ≡ false

keep-IsName :
    (ss : List String)
    → All (Without b'/') ss
    → contains ".." (keep_names ss) ≡ false
    → All IsName (keep_names ss)
unfolding keep_names contains Without
keep-IsName [] w h = tt
keep-IsName (s ∷ ss) w h = elim (Bool-cases (str_eq s "" || str_eq s ".")) [
  | inl dropped ↦ rw dropped (keep-IsName ss w.1 (rw dropped at h))
  | inr kept ↦ rw kept (
      let kept_h : contains ".." (s ∷ keep_names ss) ≡ false = rw kept at h in
      (
        record {
          not_empty = λ p. ground (arith, eq_iff s "");
          not_here = λ p. ground (arith, eq_iff s ".");
          not_up = λ p. ground (arith, eq_iff s "..");
          no_slash = w.0;
        },
        keep-IsName ss w.1 (ground arith),
      ))
]

-- The parts of an accepted path.
pub safe-parts :
    (value p : String)
    → safe_relative_path value ≡ ok p
    → (p ≡ as_posix (posix_parts (candidate_of value)))
      × All IsName (posix_parts (candidate_of value))
unfolding safe_relative_path posix_parts
safe-parts value p h =
    (ground arith, keep-IsName _ (split-Without b'/' (candidate_of value)) (ground arith))

has_prefix-append : (p s : String) → has_prefix p s ≡ true → (r : String) × (s ≡ p <> r)
unfolding has_prefix
has_prefix-append String.[] s h = (s, sym (nil-append s))
has_prefix-append (String.◌∷◌ a p) String.[] h = cc
has_prefix-append (String.◌∷◌ a p) (String.◌∷◌ c s) h =
    let (r, e) = has_prefix-append p s (ground arith) in
    let same : a ≡ c = Char-path a c (ground arith) in
    (r, rw (same, cons-append) (ap (String.◌∷◌ c) e))

split-ne-nil : (a : ℕ) (s : String) → split_at a s ≢ []
unfolding split_at
split-ne-nil a String.[] p = cc
split-ne-nil a (String.◌∷◌ c s) p = heads (split_at a s) (ground arith)
  where
    heads : (ss : List String) → (if code c == a then "" ∷ ss else cons_head c ss) ≡ [] → ⊥
    heads [] q = ground arith
    heads (t ∷ ts) q = ground arith

cons_head-append :
    (c : Char) (xs ys : List String) → xs ≢ [] → cons_head c (xs ++ ys) ≡ cons_head c xs ++ ys
cons_head-append c [] ys h = absurd (h refl)
cons_head-append c (x ∷ xs) ys h = refl

-- Splitting at the separator that stands between two texts.
split-append :
    (a : ℕ) (sep : Char) (s t : String)
    → (code sep == a) ≡ true
    → split_at a (s <> String.◌∷◌ sep t) ≡ split_at a s ++ split_at a t
unfolding split_at
split-append a sep String.[] t h = rw (nil-append, h) refl
split-append a sep (String.◌∷◌ c s) t h = rw cons-append (elim (Bool-cases (code c == a)) [
  | inl here ↦ rw here (ap (◌∷◌ "") (split-append a sep s t h))
  | inr other ↦ rw (other, split-append a sep s t h) (cons_head-append c _ _ (split-ne-nil a s))
])

keep-append : (xs ys : List String) → keep_names (xs ++ ys) ≡ keep_names xs ++ keep_names ys
unfolding keep_names
keep-append [] ys = refl
keep-append (x ∷ xs) ys = ground (arith, keep-append xs ys)

posix-append : (s t : String) → posix_parts (s <> String.◌∷◌ "/" t) ≡ posix_parts s ++ posix_parts t
unfolding posix_parts
posix-append s t = rw split-append (keep-append (split_at b'/' s) (split_at b'/' t))

split-name : (a : ℕ) (s : String) → has_char a s ≡ false → split_at a s ≡ s ∷ []
unfolding split_at has_char
split-name a String.[] h = refl
split-name a (String.◌∷◌ c s) h = ground (arith, split-name a s)

posix-name : (s : String) → IsName s → posix_parts s ≡ s ∷ []
unfolding posix_parts keep_names
posix-name s n =
    rw (split-name, n.no_slash) (ground (arith, eq_iff s "", eq_iff s ".", n.not_empty, n.not_here))

posix-join :
    (s : String) (ss : List String) → All IsName (s ∷ ss) → posix_parts (join "/" (s ∷ ss)) ≡ s ∷ ss
unfolding join
posix-join s [] n = posix-name s n.0
posix-join s (t ∷ ss) n =
    rw (cons-append, nil-append, posix-append, posix-name s n.0, posix-join t ss n.1) refl

-- The text of accepted parts has those parts again.
pub posix-as_posix : (ss : List String) → All IsName ss → posix_parts (as_posix ss) ≡ ss
unfolding as_posix
posix-as_posix [] n = unfold posix_parts keep_names split_at in refl
posix-as_posix (s ∷ ss) n = posix-join s ss n

-- The owner's parts come first among the candidate's.
pub data Under (owner candidate : List String) : Type 0 where
  under : (rest : List String) → candidate ≡ owner ++ rest → Under owner candidate

owner_text : (owner : String) (r : String) → (owner <> "/") <> r ≡ owner <> String.◌∷◌ "/" r
owner_text owner r =
    text_assoc owner "/" r
    ∙ ap (λ t. owner <> t) (cons-append "/" "" r ∙ ap (String.◌∷◌ "/") (nil-append r))

-- The test `candidate.startswith(f"{owner}/")` on the texts of two accepted paths.
pub prefix-Under :
    (os cs : List String)
    → All IsName os
    → All IsName cs
    → has_prefix (as_posix os <> "/") (as_posix cs) ≡ true
    → Under os cs
prefix-Under os cs ho hc h =
    let (r, e) = has_prefix-append (as_posix os <> "/") (as_posix cs) h in
    under (posix_parts r) (
      sym (posix-as_posix cs hc)
      ∙ ap posix_parts (e ∙ owner_text (as_posix os) r)
      ∙ posix-append (as_posix os) r
      ∙ ap (λ (t : List String). t ++ posix_parts r) (posix-as_posix os ho))
