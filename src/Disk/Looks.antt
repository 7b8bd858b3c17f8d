-- ===== src/Disk/Looks.antt =====
-- What is known after `.ok()` and after a look at the disk.
use erbridge_palu.Prelude.{◌≡◌, Bool, true, Option, none, some, if◌then◌else◌}
use erbridge_palu.Disk.{
  Disk, World, Result, ok, err, Io, caught, to_option, attempt, is_true, probe,
}
use erbridge_palu.Disk.Triples.{Ends, Triple, if_result, attempt-Triple}

abbrev pub Either : {A : Type 0} → (A → Disk → Type 0) → (Disk → Type 0) → Option A → Disk → Type 0
Either Q E none disk = E disk
Either Q E (some a) disk = Q a disk

module _ {A : Type 0} where
  Either-Ends :
      (Q : A → Disk → Type 0) (E R : Disk → Type 0) (r : Result A × World)
      → Ends Q E r
      → Ends (Either Q E) R (caught r)
  Either-Ends Q E R (ok a, w) h = h
  Either-Ends Q E R (err e, w) h = h

  pub to_option-Triple :
      {P : Disk → Type 0} {Q : A → Disk → Type 0} {E R : Disk → Type 0} {m : Io A}
      → Triple P m Q E
      → Triple P (to_option m) (Either Q E) R
  to_option-Triple {Q} {E} {R} {m} t = record { ends = λ w h. Either-Ends Q E R (m w) (t.ends w h) }

module _ (P : Disk → Type 0) (test : Disk → Bool) where
  -- A test that passes holds of the disk.
  abbrev pub Tested : Bool → Disk → Type 0
  Tested b disk = P disk × (b ≡ true → test disk ≡ true)

  Tested-Ends :
      (E : Disk → Type 0) (r : Result (Option (Unit {0})) × World)
      → Ends (Either (λ u disk. P disk × (test disk ≡ true)) P) P r
      → Ends Tested E (is_true r)
  Tested-Ends E (ok none, w) h = (h, λ e. cc)
  Tested-Ends E (ok (some _), w) h = (h.0, λ e. h.1)
  Tested-Ends E (err e, w) h = (h, λ e. cc)

  pub probe-Triple : {E : Disk → Type 0} → Triple P (probe test) Tested E
  unfolding probe
  probe-Triple {E} =
      let look : Triple P
          (attempt (λ disk. if test disk then some (tt, disk) else none)
            (λ written left disk. disk))
          (λ u disk. P disk × (test disk ≡ true)) P =
        attempt-Triple (λ disk. if test disk then some (tt, disk) else none)
          (λ written left disk. disk) (λ disk h e. h)
          (λ disk h a disk' e.
            let (on, same) = if_result (test disk) tt a disk disk' e in rw same (h, on))
          (λ disk h written left. h) in
      record { ends = λ w h. Tested-Ends E _ ((to_option-Triple {R = P} look).ends w h) }
