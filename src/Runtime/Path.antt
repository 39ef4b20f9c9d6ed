-- ===== src/Runtime/Path.antt =====
-- `_safe_relative_path` of src/artifex/runtime/models.py. `PurePosixPath` splits a text at the
-- slashes and drops empty and "." parts; joined again they are its `as_posix`.
pub mod Containment
use artifex_dev.Prelude.{
  ℕ, String, ◌≡◌, Bool, true, false, not, ◌&&◌, ◌||◌, List, [], ◌∷◌, if◌then◌else◌, Result, ok,
  raise, str_eq, strip, replace_char, has_char, split_at, has_prefix, join, contains,
}

pub data PathError : Type 0 where
  path_empty path_escapes : PathError

-- The parts of a path, without its root.
unfoldable pub keep_names : List String → List String
keep_names [] = []
keep_names (s ∷ ss) =
    let rest = keep_names ss in if str_eq s "" || str_eq s "." then rest else s ∷ rest

unfoldable pub posix_parts : String → List String
unfolding split_at keep_names
posix_parts s = keep_names (split_at b'/' s)

-- `path.parts and ":" in path.parts[0]`
abbrev pub has_drive : List String → Bool
has_drive [] = false
has_drive (s ∷ ss) = has_char b':' s

-- `path.as_posix()` of a relative path.
unfoldable pub as_posix : List String → String
unfolding join
as_posix [] = "."
as_posix (s ∷ ss) = join "/" (s ∷ ss)

-- `value.replace("\\", "/").strip()`
unfoldable pub candidate_of : String → String
candidate_of value = strip (replace_char b'\\' "/" value)

unfoldable pub safe_relative_path : String → Result PathError String
safe_relative_path value =
    let candidate = candidate_of value in
    let parts = posix_parts candidate in
    if str_eq candidate "" || str_eq candidate "/" || has_char 0 candidate
    then raise path_empty
    else if has_prefix "/" candidate || contains ".." parts || has_drive parts
    then raise path_escapes
    else ok (as_posix parts)
