-- ===== src/Prelude/Text.antt =====
-- Python's `str` methods that the program calls, on native texts.
use Prim.Native.Nat.{ℕ, ◌+◌}
use Prim.Native.Char.{Char, code}
use Prim.Native.String.{String, ◌++◌ as ◌<>◌}
use mathlib.Core.Bool.{Bool, true, false, ◌&&◌, ◌||◌}
use mathlib.Core.List.{List, [], ◌∷◌, ◌++◌}
use text.Mathlib.Text.{◌==◌ as str_eq}
use artifex_dev.Prelude.Tests.{leb, ◌==◌, if◌then◌else◌}

abbrev pub codes : String → List ℕ
codes String.[] = []
codes (String.◌∷◌ c s) = code c ∷ codes s

-- `str.isspace` of one character.
unfoldable pub is_space : ℕ → Bool
is_space c =
    (leb 9 c && leb c 13)
    || (leb 28 c && leb c 32)
    || c == 0x85
    || c == 0xa0
    || c == 0x1680
    || (leb 0x2000 c && leb c 0x200a)
    || c == 0x2028
    || c == 0x2029
    || c == 0x202f
    || c == 0x205f
    || c == 0x3000

-- `s.lstrip()`
unfoldable pub lstrip : String → String
unfolding is_space
lstrip String.[] = ""
lstrip (String.◌∷◌ c s) = let rest = lstrip s in if is_space (code c) then rest else String.◌∷◌ c s

-- `s.rstrip()`
unfoldable pub rstrip : String → String
unfolding is_space
rstrip String.[] = ""
rstrip (String.◌∷◌ c s) =
    let rest = rstrip s in if is_space (code c) && str_eq rest "" then "" else String.◌∷◌ c rest

-- `s.strip()`
unfoldable pub strip : String → String
unfolding lstrip rstrip
strip s = rstrip (lstrip s)

-- `not s.strip()`
unfoldable pub is_blank : String → Bool
unfolding strip
is_blank s = str_eq (strip s) ""

-- `s.strip() == s`
unfoldable pub is_stripped : String → Bool
unfolding strip
is_stripped s = str_eq (strip s) s

abbrev pub codes_eq : List ℕ → List ℕ → Bool
codes_eq [] [] = true
codes_eq (a ∷ as') (b ∷ bs) = a == b && codes_eq as' bs
codes_eq _ _ = false

-- The characters above ASCII whose folding has an ASCII letter in it, with the folding.
abbrev foldings : List (ℕ × List ℕ)
foldings =
    (0xdf, b's' ∷ b's' ∷ [])
    ∷ (0x130, b'i' ∷ 0x307 ∷ [])
    ∷ (0x149, 0x2bc ∷ b'n' ∷ [])
    ∷ (0x17f, b's' ∷ [])
    ∷ (0x1f0, b'j' ∷ 0x30c ∷ [])
    ∷ (0x1e96, b'h' ∷ 0x331 ∷ [])
    ∷ (0x1e97, b't' ∷ 0x308 ∷ [])
    ∷ (0x1e98, b'w' ∷ 0x30a ∷ [])
    ∷ (0x1e99, b'y' ∷ 0x30a ∷ [])
    ∷ (0x1e9a, b'a' ∷ 0x2be ∷ [])
    ∷ (0x1e9e, b's' ∷ b's' ∷ [])
    ∷ (0x212a, b'k' ∷ [])
    ∷ (0xfb00, b'f' ∷ b'f' ∷ [])
    ∷ (0xfb01, b'f' ∷ b'i' ∷ [])
    ∷ (0xfb02, b'f' ∷ b'l' ∷ [])
    ∷ (0xfb03, b'f' ∷ b'f' ∷ b'i' ∷ [])
    ∷ (0xfb04, b'f' ∷ b'f' ∷ b'l' ∷ [])
    ∷ (0xfb05, b's' ∷ b't' ∷ [])
    ∷ (0xfb06, b's' ∷ b't' ∷ [])
    ∷ []

unfoldable pub fold_by : List (ℕ × List ℕ) → ℕ → List ℕ
fold_by [] c = c ∷ []
fold_by ((a, folded) ∷ rest) c = if a == c then folded else fold_by rest c

-- `str.casefold` of one character, as far as ASCII letters come of it; a character from which
-- none comes stands for itself.
unfoldable pub fold_char : ℕ → List ℕ
unfolding fold_by
fold_char c = if leb b'A' c && leb c b'Z' then (c + 32) ∷ [] else fold_by foldings c

unfoldable pub casefold : List ℕ → List ℕ
unfolding fold_char
casefold [] = []
casefold (c ∷ cs) = fold_char c ++ casefold cs

-- `s.casefold() == word`, for a word in small ASCII letters and dashes.
unfoldable pub folds_to : String → String → Bool
unfolding casefold
folds_to s word = codes_eq (casefold (codes s)) (codes word)

-- `s.replace(a, b)` for two characters.
unfoldable pub replace_char : ℕ → Char → String → String
replace_char a b String.[] = ""
replace_char a b (String.◌∷◌ c s) =
    let rest = replace_char a b s in if code c == a then String.◌∷◌ b rest else String.◌∷◌ c rest

-- `chr(a) in s`
unfoldable pub has_char : ℕ → String → Bool
has_char a String.[] = false
has_char a (String.◌∷◌ c s) = code c == a || has_char a s

abbrev pub cons_head : Char → List String → List String
cons_head c [] = String.◌∷◌ c "" ∷ []
cons_head c (s ∷ ss) = String.◌∷◌ c s ∷ ss

-- `s.split(chr(a))`
unfoldable pub split_at : ℕ → String → List String
split_at a String.[] = "" ∷ []
split_at a (String.◌∷◌ c s) =
    let rest = split_at a s in if code c == a then "" ∷ rest else cons_head c rest

-- `s.startswith(p)`
unfoldable pub has_prefix : String → String → Bool
has_prefix String.[] s = true
has_prefix (String.◌∷◌ a p) String.[] = false
has_prefix (String.◌∷◌ a p) (String.◌∷◌ c s) = code a == code c && has_prefix p s

-- `sep.join(parts)`
unfoldable pub join : String → List String → String
join sep [] = ""
join sep (s ∷ []) = s
join sep (s ∷ t ∷ ss) = s <> (sep <> join sep (t ∷ ss))
