-- ===== src/Runtime/Envelope/Scope.antt =====
-- What an envelope's paths authorize.
use Prim.Native.String.{◌++◌ as ◌<>◌}
use mathlib.Core.List.{append-nil}
use artifex_dev.Prelude.{
  String, ◌≡◌, refl, sym, ap, subst, ◌∙◌, true, ◌||◌, List, [], ◌∷◌, All, ok, str_eq, eq_iff,
  eq_refl, contains, has_prefix, arith, Bool-cases, Result-cases, inl, inr, split_at,
}
use artifex_dev.Runtime.Path.{posix_parts, candidate_of, as_posix, safe_relative_path, keep_names}
use artifex_dev.Runtime.Path.Containment.{
  IsName, Under, under, safe-parts, prefix-Under, posix-as_posix,
}
use artifex_dev.Runtime.Envelope.{ExecutionEnvelope, any_owner, authorizes_path}

-- The names that a path given by a caller leads through.
abbrev pub names_of : String → List String
names_of path = posix_parts (candidate_of path)

-- One owner's test.
owner-Under :
    (owner : String) (os cs : List String)
    → owner ≡ as_posix os
    → All IsName os
    → All IsName cs
    → (str_eq owner "." || str_eq (as_posix cs) owner || has_prefix (owner <> "/") (as_posix cs))
      ≡ true
    → Under os cs
owner-Under owner os cs e ho hc h = elim (Bool-cases (str_eq owner ".")) [
  | inl dot ↦
      let no_names : os ≡ [] =
        sym (posix-as_posix os ho)
        ∙ ap posix_parts (sym e ∙ (eq_iff owner ".").0 dot)
        ∙ (unfold posix_parts keep_names split_at in refl) in
      under cs (rw no_names refl)
  | inr not_dot ↦ elim (Bool-cases (str_eq (as_posix cs) owner)) [
    | inl same ↦
        let same_names : cs ≡ os =
          sym (posix-as_posix cs hc)
          ∙ ap posix_parts ((eq_iff (as_posix cs) owner).0 same ∙ e)
          ∙ posix-as_posix os ho in
        under [] (same_names ∙ sym (append-nil os))
    | inr differ ↦
        prefix-Under os cs ho hc
          (subst (λ t. has_prefix (t <> "/") (as_posix cs) ≡ true) e (ground arith))
  ]
]

any_owner-Under :
    (cs items : List String)
    → All IsName cs
    → any_owner (as_posix cs) items ≡ ok true
    → (item : String) × (contains item items ≡ true)
      × All IsName (names_of item)
      × Under (names_of item) cs
unfolding any_owner contains
any_owner-Under cs [] hc h = cc
any_owner-Under cs (item ∷ items) hc h = elim (Result-cases (safe_relative_path item)) [
  | inr (x, bad) ↦ absurd (ground arith)
  | inl (owner, good) ↦
      let (text, names) = safe-parts item owner good in
      elim (Bool-cases (
        str_eq owner "."
        || str_eq (as_posix cs) owner
        || has_prefix (owner <> "/") (as_posix cs))) [
          | inl pass ↦ (
            item,
            ground (arith, eq_refl item),
            names,
            owner-Under owner (names_of item) cs text names hc pass,
          )
          | inr miss ↦
              let (other, listed, names', below) = any_owner-Under cs items hc (ground arith) in
              (other, ground arith, names', below)
        ]
]

-- If an envelope authorizes a path, then the permission is granted, and the path's names begin with
-- those of one of the allowed paths, where no name is empty, ".", ".." or holds a slash.
pub authorizes-Under :
    (e : ExecutionEnvelope) (path permission : String)
    → authorizes_path e path permission ≡ ok true
    → (contains permission e.filesystem_permissions ≡ true)
      × All IsName (names_of path)
      × ((item : String) × (contains item e.allowed_paths ≡ true)
          × All IsName (names_of item)
          × Under (names_of item) (names_of path))
unfolding authorizes_path
authorizes-Under e path permission h = elim (Result-cases (safe_relative_path path)) [
  | inr (x, bad) ↦ absurd (ground arith)
  | inl (candidate, good) ↦
      let (text, names) = safe-parts path candidate good in
      (ground arith, names, any_owner-Under (names_of path) e.allowed_paths names (ground arith))
]
