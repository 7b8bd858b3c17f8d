-- ===== src/Disk.antt =====
-- The part of `std::fs` and `std::path` that the cache of the static data uses, on Unix: a disk, the
-- operations on it, and what may go wrong with each. An operation takes the next fault of the world;
-- a broken one may leave some of its effect behind.
pub mod Triples
pub mod Looks
pub mod Kept
use erbridge_palu.Prelude.{
  Bool, true, false, not, ◌&&◌, ◌||◌, Option, none, some, List, [], ◌∷◌, ◌++◌, filter, Text,
  text_eq, PartialEq, ◌==◌, if◌then◌else◌,
}
use erbridge_palu.Prelude.HashMap
use erbridge_palu.Prelude.HashMap.{HashMap}
use erbridge_palu.Disk.Paths.{Bytes, FilePath, path_eq, prefixes, under, child, parent}
mod Paths
pub mod Lines
unfoldable pub use Paths.*

pub data Node : Type 0 where
  dir : Node
  file : Bytes → Node

abbrev pub Disk : Type 0
Disk = HashMap FilePath Node

-- A broken write leaves what was written, when the file was there; a broken removal leaves the
-- paths that `left` says, and so many directories are made by a broken `create_dir_all`.
pub data Fault : Type 0 where
  fine : Fault
  broken : (written : Option Bytes) (left : FilePath → Bool) → Fault

pub record World : Type 0 where
  pub disk : Disk
  pub faults : List Fault

-- `anyhow::Result<A>`: an error has the texts of its contexts, the outer one first. The error of the
-- library below them is left out.
pub data Result {ℓ} (A : Type ℓ) : Type ℓ where
  ok : A → Result A
  err : List Text → Result A

abbrev pub Io : Type 0 → Type 0
Io A = World → Result A × World

abbrev pub continue : {A B : Type 0} → Result A × World → (A → Io B) → Result B × World
continue (ok a, w) f = f a w
continue (err e, w) f = (err e, w)

infixl 5 ◌>>=◌ ◌>>◌
abbrev pub ◌>>=◌ : {A B : Type 0} → Io A → (A → Io B) → Io B
◌>>=◌ m f w = continue (m w) f

abbrev pub ◌>>◌ : {B : Type 0} → Io (Unit {0}) → Io B → Io B
m >> k = m >>= λ _. k

abbrev pub pure : {A : Type 0} → A → Io A
pure a w = (ok a, w)

-- `bail!`
abbrev pub bail : {A : Type 0} → Text → Io A
bail message w = (err (message ∷ []), w)

abbrev pub with_context : {A : Type 0} → Text → Result A × World → Result A × World
with_context message (ok a, w) = (ok a, w)
with_context message (err e, w) = (err (message ∷ e), w)

-- `.context(message)`
abbrev pub context : {A : Type 0} → Text → Io A → Io A
context message m w = with_context message (m w)

abbrev pub caught : {A : Type 0} → Result A × World → Result (Option A) × World
caught (ok a, w) = (ok (some a), w)
caught (err e, w) = (ok none, w)

-- `.ok()`
abbrev pub to_option : {A : Type 0} → Io A → Io (Option A)
to_option m w = caught (m w)

-- `?` on an option, whose error has no context yet.
abbrev pub of_option : {A : Type 0} → Option A → Io A
of_option none w = (err [], w)
of_option (some a) w = (ok a, w)

unfoldable pub settle : {A : Type 0} → Option (A × Disk) → World → Result A × World
settle none w = (err [], w)
settle (some (a, disk)) w = (ok a, record w { disk = disk })

-- An operation, by what it does to the disk, and what a broken one may do.
unfoldable pub attempt :
    {A : Type 0}
    → (Disk → Option (A × Disk))
    → (Option Bytes → (FilePath → Bool) → Disk → Disk)
    → Io A
unfolding settle
attempt act harm w = elim w.faults [
  | [] ↦ settle (act w.disk) w
  | fine ∷ faults ↦ settle (act w.disk) (record w { faults = faults })
  | broken written left ∷ faults ↦
      (err [], record { disk = harm written left w.disk; faults = faults })
]

unfoldable pub is_dir_at : FilePath → Disk → Bool
is_dir_at [] disk = true
is_dir_at (x ∷ p) disk = elim (HashMap.get (x ∷ p) disk) [ some dir ↦ true | _ ↦ false ]

unfoldable pub exists_at : FilePath → Disk → Bool
exists_at p disk = elim (HashMap.get p disk) [ none ↦ false | some _ ↦ true ]

-- A file is written where there is a directory for it, and no directory in its place.
unfoldable pub is_writable : FilePath → Disk → Bool
unfolding is_dir_at
is_writable p disk = is_dir_at (parent p) disk && not (is_dir_at p disk)

unfoldable pub put : FilePath → Bytes → Disk → Disk
unfolding is_writable
put p bytes disk = if is_writable p disk then HashMap.insert p (file bytes) disk else disk

unfoldable pub put_broken : FilePath → Option Bytes → Disk → Disk
unfolding put
put_broken p none disk = disk
put_broken p (some bytes) disk = put p bytes disk

-- `std::fs::write`, and `std::io::copy` to a file that was created.
unfoldable pub write : FilePath → Bytes → Io (Unit {0})
unfolding attempt put put_broken is_writable
write p bytes =
    attempt (λ disk. if is_writable p disk then some (tt, put p bytes disk) else none)
      (λ written left disk. put_broken p written disk)

-- `File::create`
unfoldable pub create : FilePath → Io (Unit {0})
unfolding attempt put is_writable
create p =
    attempt (λ disk. if is_writable p disk then some (tt, put p [] disk) else none)
      (λ written left disk. disk)

unfoldable pub moved : FilePath → FilePath → Disk → Option (Unit {0} × Disk)
unfolding is_writable
moved a b disk = elim (HashMap.get a disk) [
  | some (file bytes) ↦
      if is_writable b disk
      then some (tt, HashMap.insert b (file bytes) (HashMap.remove a disk))
      else none
  | _ ↦ none
]

-- `std::fs::rename` of a file.
unfoldable pub rename : FilePath → FilePath → Io (Unit {0})
unfolding attempt moved
rename a b = attempt (moved a b) (λ written left disk. disk)

unfoldable pub read_at : FilePath → Disk → Option (Bytes × Disk)
read_at p disk = elim (HashMap.get p disk) [ some (file bytes) ↦ some (bytes, disk) | _ ↦ none ]

-- `std::fs::read`, and reading from a file that was opened.
unfoldable pub read : FilePath → Io Bytes
unfolding attempt read_at
read p = attempt (read_at p) (λ written left disk. disk)

-- `File::open`
unfoldable pub open_file : FilePath → Io (Unit {0})
unfolding attempt exists_at
open_file p =
    attempt (λ disk. if exists_at p disk then some (tt, disk) else none) (λ written left disk. disk)

abbrev pub is_true : Result (Option (Unit {0})) × World → Result Bool × World
is_true (ok none, w) = (ok false, w)
is_true (ok (some _), w) = (ok true, w)
is_true (err e, w) = (ok false, w)

-- `Path::exists` and `Path::is_dir`: false, too, when the disk cannot tell.
unfoldable pub probe : (Disk → Bool) → Io Bool
unfolding attempt
probe test w = is_true (
    to_option
      (attempt (λ disk. if test disk then some (tt, disk) else none) (λ written left disk. disk)) w)

unfoldable pub exists : FilePath → Io Bool
unfolding probe exists_at
exists p = probe (exists_at p)

unfoldable pub is_dir : FilePath → Io Bool
unfolding probe is_dir_at
is_dir p = probe (is_dir_at p)

unfoldable pub add_dir : FilePath → Disk → Disk
add_dir p disk = elim (HashMap.get p disk) [ none ↦ HashMap.insert p dir disk | some _ ↦ disk ]

unfoldable pub add_dirs : List FilePath → Disk → Disk
unfolding add_dir
add_dirs [] disk = disk
add_dirs (p ∷ ps) disk = add_dirs ps (add_dir p disk)

-- No file is in the way.
unfoldable pub all_dirs : List FilePath → Disk → Bool
unfolding is_dir_at
all_dirs [] disk = true
all_dirs (p ∷ ps) disk = is_dir_at p disk && all_dirs ps disk

-- `std::fs::create_dir_all`
unfoldable pub create_dir_all : FilePath → Io (Unit {0})
unfolding attempt add_dirs all_dirs
create_dir_all p =
    attempt
      (λ disk.
        if all_dirs (prefixes p) (add_dirs (prefixes p) disk)
        then some (tt, add_dirs (prefixes p) disk)
        else none)
      (λ written left disk. add_dirs (filter left (prefixes p)) disk)

unfoldable pub names_in : FilePath → Disk → List Text
names_in p [] = []
names_in p ((q, _) ∷ disk) = elim (child p q) [
  | none ↦ names_in p disk
  | some name ↦ name ∷ names_in p disk
]

-- `std::fs::read_dir`
unfoldable pub read_dir : FilePath → Io (List Text)
unfolding attempt is_dir_at names_in
read_dir p =
    attempt (λ disk. if is_dir_at p disk then some (names_in p disk, disk) else none)
      (λ written left disk. disk)

-- `std::fs::remove_dir_all`
unfoldable pub remove_dir_all : FilePath → Io (Unit {0})
unfolding attempt is_dir_at
remove_dir_all p =
    attempt
      (λ disk.
        if is_dir_at p disk then some (tt, HashMap.retain (λ q. not (under p q)) disk) else none)
      (λ written left disk. HashMap.retain (λ q. not (under p q) || left q) disk)
