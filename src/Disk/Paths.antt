-- ===== src/Disk/Paths.antt =====
-- Paths as the lists of their components, from the root of the file system on.
use erbridge_palu.Prelude.{
  ℕ, ◌≡◌, ◌≢◌, ◌↔◌, refl, sym, ap, ◌∙◌, inl, inr, Bool, true, false, ◌&&◌, Option, none, some, List,
  [], ◌∷◌, ◌++◌, map, Text, text_eq, text_of, PartialEq, ◌==◌, beq_self, beq_ne, eq_of_beq,
  Bool-cases, if◌then◌else◌, arith,
}

abbrev pub Bytes : Type 0
Bytes = List ℕ

abbrev pub FilePath : Type 0
FilePath = List Text

unfoldable pub path_beq : FilePath → FilePath → Bool
path_beq [] [] = true
path_beq (a ∷ p) (b ∷ q) = a == b && path_beq p q
path_beq _ _ = false

pub path_beq_iff : (p q : FilePath) → (path_beq p q ≡ true) ↔ (p ≡ q)
unfolding path_beq
path_beq_iff [] [] = ground arith
path_beq_iff (a ∷ p) (b ∷ q) = elim (Bool-cases (a == b)) [
  | inl same ↦
      let e = eq_of_beq a b same in
      (
        λ h. let e' = (path_beq_iff p q).0 (rw same at h) in λ i. e i ∷ e' i,
        λ h. rw (same) ((path_beq_iff p q).1 (cc)),
      )
  | inr other ↦ (λ h. cc, λ h. cc (beq_self a))
]
path_beq_iff [] (b ∷ q) = ground arith
path_beq_iff (a ∷ p) [] = ground arith

instance abbrev pub path_eq : PartialEq FilePath
path_eq = record { eq = path_beq; eq_iff = path_beq_iff }

-- `Path::join` of a single name.
abbrev pub join : FilePath → Text → FilePath
join p name = p ++ name ∷ []

unfoldable pub parent : FilePath → FilePath
parent [] = []
parent (x ∷ []) = []
parent (x ∷ y ∷ p) = x ∷ parent (y ∷ p)

-- The directories on the way, the path itself with them.
unfoldable pub prefixes : FilePath → List FilePath
prefixes [] = []
prefixes (x ∷ p) = (x ∷ []) ∷ map (λ q. x ∷ q) (prefixes p)

-- The path is `p`, or it is in `p`.
unfoldable pub under : FilePath → FilePath → Bool
under [] q = true
under (x ∷ p) [] = false
under (x ∷ p) (y ∷ q) = x == y && under p q

-- The name of a path that is directly in `p`.
unfoldable pub child : FilePath → FilePath → Option Text
child [] (y ∷ []) = some y
child (x ∷ p) (y ∷ q) = if x == y then child p q else none
child _ _ = none

-- `Path::display`
unfoldable pub display : FilePath → Text
display [] = []
display (x ∷ p) = text_of "/" ++ x ++ display p

-- In one directory, another name's paths are elsewhere.
pub under-join_ne : (p r : FilePath) (a b : Text) → a ≢ b → under (join p a) (p ++ b ∷ r) ≡ false
unfolding under
under-join_ne [] r a b ne = rw (beq_ne a b ne) refl
under-join_ne (x ∷ p) r a b ne = rw (beq_self x) (under-join_ne p r a b ne)

pub join-ne : (p : FilePath) (a b : Text) → a ≢ b → join p a ≢ join p b
unfolding under
join-ne [] a b ne e = ne (cc)
join-ne (x ∷ p) a b ne e = join-ne p a b ne (cc)

pub parent-join : (p : FilePath) (a : Text) → parent (join p a) ≡ p
unfolding parent
parent-join [] a = refl
parent-join (x ∷ []) a = refl
parent-join (x ∷ y ∷ p) a = ap (λ q. x ∷ q) (parent-join (y ∷ p) a)

longer-ne : (p : FilePath) (a : Text) → p ≢ join p a
longer-ne [] a e = cc
longer-ne (x ∷ p) a e = longer-ne p a (cc)

-- A path in a directory is not in a directory of that.
pub join-ne-deeper : (p : FilePath) (a b c : Text) → join p a ≢ join (join p b) c
join-ne-deeper p a b c e =
    longer-ne p b (sym (parent-join p a) ∙ ap parent e ∙ parent-join (join p b) c)

pub join_inj : (p q : FilePath) (a b : Text) → join p a ≡ join q b → p ≡ q
join_inj p q a b e = sym (parent-join p a) ∙ ap parent e ∙ parent-join q b
