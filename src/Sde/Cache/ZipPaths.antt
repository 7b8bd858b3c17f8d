-- ===== src/Sde/Cache/ZipPaths.antt =====
-- `is_unsafe_zip_path`: a name that it lets pass stays in the directory that it is resolved in.
use erbridge_palu.Prelude.{
  ℕ, ◌≡◌, refl, sym, ◌∙◌, inl, inr, Bool, true, false, not, ◌||◌, List, [], ◌∷◌, ◌++◌, filter, Text,
  text_of, text_eq, text_beq, ◌==◌, nat_beq, Bool-cases, if◌then◌else◌, arith,
}
use mathlib.Core.List.{append_assoc, append-nil}
use erbridge_palu.Disk.{FilePath, join, parent}
use erbridge_palu.Sde.Cache.{
  split_path, parent_dir, components, any_parent, is_anchored, is_unsafe_zip_path,
}

-- The operating system's walk, one part of the name after the other.
abbrev pub enter : FilePath → Text → FilePath
enter dir part =
    if part == [] || part == text_of "."
    then dir
    else if part == parent_dir
    then parent dir
    else join dir part

abbrev pub walk : FilePath → List Text → FilePath
walk dir [] = dir
walk dir (part ∷ parts) = walk (enter dir part) parts

-- Where a name leads from a directory: one that starts with `/` starts from the root.
abbrev pub resolve : FilePath → Text → FilePath
resolve dir [] = dir
resolve dir (c ∷ name) = walk (if nat_beq c b'/' then [] else dir) (split_path [] (c ∷ name))

abbrev is_name : Text → Bool
is_name part = not (part == [] || part == text_of ".")

walk_below :
    (dir : FilePath) (parts : List Text)
    → any_parent (filter is_name parts) ≡ false
    → walk dir parts ≡ dir ++ filter is_name parts
unfolding any_parent
walk_below dir [] h = sym (append-nil dir)
walk_below dir (part ∷ parts) h = elim (Bool-cases (part == [] || part == text_of ".")) [
  | inl skip ↦ rw skip (walk_below dir parts (rw skip at h))
  | inr name ↦ elim (Bool-cases (part == parent_dir)) [
    | inl up ↦ cc (rw (name, up) at h)
    | inr plain ↦
        let rest = rw (name, plain) at h in
        rw (name, plain)
          (walk_below (join dir part) parts rest
            ∙ append_assoc dir (part ∷ []) (filter is_name parts))
  ]
]

not_absolute : (c : ℕ) (name : Text) → is_anchored (c ∷ name) ≡ false → nat_beq c b'/' ≡ false
unfolding is_anchored
not_absolute c [] h = ground arith
not_absolute c (d ∷ name) h = ground arith

or_false : (a b : Bool) → (a || b) ≡ false → (a ≡ false) × (b ≡ false)
or_false false b h = (refl, h)
or_false true b h = cc

-- A name that passes leads, from any directory, to a path in it: the directory's own path, followed
-- by the components of the name.
pub resolve_safe :
    (dir : FilePath) (name : Text)
    → is_unsafe_zip_path name ≡ false
    → resolve dir name ≡ dir ++ components name
unfolding is_unsafe_zip_path components split_path text_beq
resolve_safe dir [] h = sym (append-nil dir)
resolve_safe dir (c ∷ name) h =
    let (relative, inside) =
      or_false (is_anchored (c ∷ name)) (any_parent (components (c ∷ name))) h in
    rw (not_absolute c name relative) (walk_below dir (split_path [] (c ∷ name)) inside)
