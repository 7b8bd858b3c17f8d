-- ===== src/Disk/Triples.antt =====
-- What holds of the disk after an operation, on success and on error, and how the pieces compose.
use erbridge_palu.Prelude.{
  ◌≡◌, refl, sym, subst, Bool, true, false, Option, none, some, List, [], ◌∷◌, Text, if◌then◌else◌,
}
use erbridge_palu.Disk.{
  Bytes, FilePath, Disk, Fault, fine, broken, World, Result, ok, err, Io, continue, ◌>>=◌, pure,
  bail, with_context, context, caught, to_option, of_option, settle, attempt, is_true, probe,
}

abbrev pub Ends : {A : Type 0} → (A → Disk → Type 0) → (Disk → Type 0) → Result A × World → Type 0
Ends Q E (ok a, w) = Q a w.disk
Ends Q E (err e, w) = E w.disk

-- From a disk that meets `P`, the operation ends in one that meets `Q` with its result, or in an
-- error and a disk that meets `E`, whatever goes wrong.
pub record Triple {A : Type 0} (P : Disk → Type 0) (m : Io A) (Q : A → Disk → Type 0)
    (E : Disk → Type 0) : Type 0 where
  pub ends : (w : World) → P w.disk → Ends Q E (m w)

-- The operation keeps `P`, on success and on error.
abbrev pub Keeps : {A : Type 0} → (Disk → Type 0) → Io A → Type 0
Keeps P m = Triple P m (λ a. P) P

-- Nothing is known.
abbrev pub Any : Disk → Type 0
Any disk = Unit {0}

module _ {A B : Type 0} where
  continue-Ends :
      (Q : A → Disk → Type 0) (R : B → Disk → Type 0) (E : Disk → Type 0) (f : A → Io B)
      (r : Result A × World)
      → Ends Q E r
      → ((a : A) → Triple (Q a) (f a) R E)
      → Ends R E (continue r f)
  continue-Ends Q R E f (ok a, w) h next = (next a).ends w h
  continue-Ends Q R E f (err e, w) h next = h

  pub >>=-Triple :
      {P : Disk → Type 0} {Q : A → Disk → Type 0} {R : B → Disk → Type 0} {E : Disk → Type 0}
      {m : Io A} {f : A → Io B}
      → Triple P m Q E
      → ((a : A) → Triple (Q a) (f a) R E)
      → Triple P (m >>= f) R E
  >>=-Triple {Q} {R} {E} {m} {f} first next = record {
    ends = λ w h. continue-Ends Q R E f (m w) (first.ends w h) next;
  }

Any-Ends : {A : Type 0} (r : Result A × World) → Ends (λ a. Any) Any r
Any-Ends (ok a, w) = tt
Any-Ends (err e, w) = tt

module _ {A : Type 0} {P : Disk → Type 0} where
  pub pure-Triple :
      {Q : A → Disk → Type 0} {E : Disk → Type 0} (a : A)
      → ((disk : Disk) → P disk → Q a disk)
      → Triple P (pure a) Q E
  pure-Triple a back = record { ends = λ w h. back w.disk h }

  pub pure-Keeps : (a : A) → Keeps P (pure a)
  pure-Keeps a = record { ends = λ w h. h }

  pub bail-Triple : {Q : A → Disk → Type 0} (message : Text) → Triple P (bail message) Q P
  bail-Triple message = record { ends = λ w h. h }

  pub bail-Any : {Q : A → Disk → Type 0} (message : Text) → Triple P (bail message) Q Any
  bail-Any message = record { ends = λ w h. tt }

  pub Any-Triple : (m : Io A) → Triple P m (λ a. Any) Any
  Any-Triple m = record { ends = λ w h. Any-Ends (m w) }

module _ {A : Type 0} (Q : A → Disk → Type 0) (E : Disk → Type 0) where
  with_context-Ends :
      (message : Text) (r : Result A × World) → Ends Q E r → Ends Q E (with_context message r)
  with_context-Ends message (ok a, w) h = h
  with_context-Ends message (err e, w) h = h

  settle-Ends :
      (o : Option (A × Disk)) (w : World)
      → (o ≡ none → E w.disk)
      → ((a : A) (disk : Disk) → o ≡ some (a, disk) → Q a disk)
      → Ends Q E (settle o w)
  unfolding settle
  settle-Ends none w stop go = stop refl
  settle-Ends (some (a, disk)) w stop go = go a disk refl

  attempt-by :
      (act : Disk → Option (A × Disk)) (harm : Option Bytes → (FilePath → Bool) → Disk → Disk)
      (disk : Disk) (faults : List Fault)
      → (act disk ≡ none → E disk)
      → ((a : A) (disk' : Disk) → act disk ≡ some (a, disk') → Q a disk')
      → ((written : Option Bytes) (left : FilePath → Bool) → E (harm written left disk))
      → Ends Q E (attempt act harm (record { disk = disk; faults = faults }))
  unfolding attempt
  attempt-by act harm disk [] stop go hurt = settle-Ends (act disk) _ stop go
  attempt-by act harm disk (fine ∷ faults) stop go hurt = settle-Ends (act disk) _ stop go
  attempt-by act harm disk (broken written left ∷ faults) stop go hurt = hurt written left

module _ {A : Type 0} {P : Disk → Type 0} {Q : A → Disk → Type 0} {E : Disk → Type 0} where
  pub context-Triple :
      (message : Text) {m : Io A} → Triple P m Q E → Triple P (context message m) Q E
  context-Triple message {m} t = record {
    ends = λ w h. with_context-Ends Q E message (m w) (t.ends w h);
  }

  pub attempt-Triple :
      (act : Disk → Option (A × Disk)) (harm : Option Bytes → (FilePath → Bool) → Disk → Disk)
      → ((disk : Disk) → P disk → act disk ≡ none → E disk)
      → ((disk : Disk) → P disk → (a : A) (disk' : Disk) → act disk ≡ some (a, disk') → Q a disk')
      → ((disk : Disk)
          → P disk
          → (written : Option Bytes) (left : FilePath → Bool) → E (harm written left disk))
      → Triple P (attempt act harm) Q E
  attempt-Triple act harm stop go hurt = record {
    ends = λ w h.
        attempt-by Q E act harm w.disk w.faults (stop w.disk h) (go w.disk h) (hurt w.disk h);
  }

module _ {A : Type 0} (P : Disk → Type 0) where
  caught-Ends : (r : Result A × World) → Ends (λ a. P) P r → Ends (λ o. P) P (caught r)
  caught-Ends (ok a, w) h = h
  caught-Ends (err e, w) h = h

  of_option-Ends :
      (o : Option A) (w : World)
      → P w.disk
      → Ends (λ a disk. (o ≡ some a) × P disk) P (of_option o w)
  of_option-Ends none w h = h
  of_option-Ends (some a) w h = (refl, h)

module _ (P : Disk → Type 0) where
  is_true-Ends :
      (r : Result (Option (Unit {0})) × World) → Ends (λ o. P) P r → Ends (λ b. P) P (is_true r)
  is_true-Ends (ok none, w) h = h
  is_true-Ends (ok (some _), w) h = h
  is_true-Ends (err e, w) h = h

module _ {A : Type 0} {P : Disk → Type 0} where
  pub to_option-Keeps : {m : Io A} → Keeps P m → Keeps P (to_option m)
  to_option-Keeps {m} t = record { ends = λ w h. caught-Ends P (m w) (t.ends w h) }

  pub of_option-Triple : (o : Option A) → Triple P (of_option o) (λ a disk. (o ≡ some a) × P disk) P
  of_option-Triple o = record { ends = of_option-Ends P o }

  -- Looking does not change the disk.
  pub look-Keeps :
      (act : Disk → Option (A × Disk))
      → ((disk : Disk) (a : A) (disk' : Disk) → act disk ≡ some (a, disk') → disk' ≡ disk)
      → Keeps P (attempt act (λ written left disk. disk))
  look-Keeps act same =
      attempt-Triple act (λ written left disk. disk) (λ disk h e. h)
        (λ disk h a disk' e. subst P (sym (same disk a disk' e)) h) (λ disk h written left. h)

pub if_result :
    {A : Type 0} (b : Bool) (a a' : A) (disk disk' : Disk)
    → ◌≡◌ {A = Option (A × Disk)} (if b then some (a, disk) else none) (some (a', disk'))
    → (b ≡ true) × (disk' ≡ disk)
if_result true a a' disk disk' h = (refl, cc)
if_result false a a' disk disk' h = cc

module _ {P : Disk → Type 0} where
  pub probe-Keeps : (test : Disk → Bool) → Keeps P (probe test)
  unfolding probe
  probe-Keeps test =
      let look : Keeps P (
          attempt (λ disk. if test disk then some (tt, disk) else none)
            (λ written left disk. disk)) =
        look-Keeps (λ disk. if test disk then some (tt, disk) else none)
          (λ disk a disk' e. (if_result (test disk) tt a disk disk' e).1) in
      record { ends = λ w h. is_true-Ends P _ ((to_option-Keeps look).ends w h) }

-- What is known in each case, together.
module _ {A : Type 0} (Q Q' : A → Disk → Type 0) (E E' : Disk → Type 0) where
  both-Ends :
      (r : Result A × World)
      → Ends Q E r
      → Ends Q' E' r
      → Ends (λ a disk. Q a disk × Q' a disk) (λ disk. E disk × E' disk) r
  both-Ends (ok a, w) h h' = (h, h')
  both-Ends (err e, w) h h' = (h, h')

  weaken-Ends :
      (r : Result A × World)
      → ((a : A) (disk : Disk) → Q a disk → Q' a disk)
      → ((disk : Disk) → E disk → E' disk)
      → Ends Q E r
      → Ends Q' E' r
  weaken-Ends (ok a, w) to to' h = to a w.disk h
  weaken-Ends (err e, w) to to' h = to' w.disk h

module _ {A : Type 0} {P P' : Disk → Type 0} {Q Q' : A → Disk → Type 0} {E E' : Disk → Type 0} where
  pub both-Triple :
      {m : Io A}
      → Triple P m Q E
      → Triple P' m Q' E'
      → Triple
          (λ disk. P disk × P' disk)
          m
          (λ a disk. Q a disk × Q' a disk)
          (λ disk. E disk × E' disk)
  both-Triple {m} t t' = record {
    ends = λ w h. both-Ends Q Q' E E' (m w) (t.ends w h.0) (t'.ends w h.1);
  }

  pub weaken-Triple :
      {m : Io A}
      → ((disk : Disk) → P' disk → P disk)
      → ((a : A) (disk : Disk) → Q a disk → Q' a disk)
      → ((disk : Disk) → E disk → E' disk)
      → Triple P m Q E
      → Triple P' m Q' E'
  weaken-Triple {m} from to to' t = record {
    ends = λ w h. weaken-Ends Q Q' E E' (m w) to to' (t.ends w (from w.disk h));
  }

-- What is known of each text, at once.
module _ {A : Type 0} where
  each_Ends :
      (Q : Text → A → Disk → Type 0) (r : Result A × World)
      → ((name : Text) → Ends (Q name) Any r)
      → Ends (λ a disk. (name : Text) → Q name a disk) Any r
  each_Ends Q (ok a, w) h = h
  each_Ends Q (err e, w) h = tt

  pub each-Triple :
      {P : Disk → Type 0} {Q : Text → A → Disk → Type 0} {m : Io A}
      → ((name : Text) → Triple P m (Q name) Any)
      → Triple P m (λ a disk. (name : Text) → Q name a disk) Any
  each-Triple {Q} {m} t = record { ends = λ w h. each_Ends Q (m w) (λ name. (t name).ends w h) }

  total_Ends : (E : Disk → Type 0) (r : Result A × World) → Ends (λ o. Any) E (caught r)
  total_Ends E (ok a, w) = tt
  total_Ends E (err e, w) = tt

  -- `.ok()` does not fail.
  pub to_option_Total :
      {P : Disk → Type 0} {E : Disk → Type 0} (m : Io A) → Triple P (to_option m) (λ o. Any) E
  to_option_Total {E} m = record { ends = λ w h. total_Ends E (m w) }

  -- A fact that does not depend on the disk may be taken out of the condition.
  pub lift_known :
      (K : Type 0) {P : Disk → Type 0} {Q : A → Disk → Type 0} {E : Disk → Type 0} {m : Io A}
      → (K → Triple P m Q E)
      → Triple (λ disk. K × P disk) m Q E
  lift_known K {m} t = record { ends = λ w h. (t h.0).ends w h.1 }

-- Both branches of a test.
pub if_Triple :
    {A : Type 0} {P : Disk → Type 0} {Q : A → Disk → Type 0} {E : Disk → Type 0} (b : Bool)
    (m n : Io A)
    → Triple P m Q E
    → Triple P n Q E
    → Triple P (if b then m else n) Q E
if_Triple true m n t t' = t
if_Triple false m n t t' = t'
