-- ===== src/EveScout/Split.antt =====
-- `partition`: each hub gets its wormholes, in the order of the response.
use erbridge_palu.Prelude.{
  ◌≡◌, ◌≢◌, refl, sym, ◌∙◌, ap, inl, inr, ◌&&◌, some, List, [], ◌∷◌, ◌++◌, map, filter, ℤ, text_of,
  int_eq, text_eq, ◌==◌, Bool-cases, eq_of_beq, if◌then◌else◌, arith,
}
use mathlib.Core.List.{append_assoc, append-nil}
use erbridge_palu.External.{External}
use erbridge_palu.EveScout.{
  RawSignature, Signature, signature_of, Hubs, push_sig, keep, keep_all, partition, thera_system_id,
  turnur_system_id,
}

module _ (X : External) where
  -- The wormholes of one hub.
  abbrev pub of_hub : ℤ → List (RawSignature X) → List (Signature X)
  of_hub hub raw =
      map (signature_of X)
        (filter (λ r. r.signature_type == text_of "wormhole" && r.out_system_id == hub) raw)

  -- What one row adds to a hub.
  row_of : ℤ → RawSignature X → List (Signature X)
  row_of hub r =
      if r.signature_type == text_of "wormhole" && r.out_system_id == hub
      then signature_of X r ∷ []
      else []

  of_hub-cons :
      (hub : ℤ) (r : RawSignature X) (rs : List (RawSignature X))
      → of_hub hub (r ∷ rs) ≡ row_of hub r ++ of_hub hub rs
  unfolding row_of
  of_hub-cons hub r rs =
      elim (Bool-cases (r.signature_type == text_of "wormhole" && r.out_system_id == hub)) [
        | inl yes' ↦ rw yes' refl
        | inr no' ↦ rw no' refl
      ]

  keep_lem :
      (h : Hubs X) (r : RawSignature X)
      → ((keep X h r).thera ≡ h.thera ++ row_of thera_system_id r)
        × ((keep X h r).turnur ≡ h.turnur ++ row_of turnur_system_id r)
  unfolding keep push_sig row_of signature_of
  keep_lem h r = elim (Bool-cases (r.signature_type == text_of "wormhole")) [
    | inr other ↦ rw other (sym (append-nil h.thera), sym (append-nil h.turnur))
    | inl hole ↦ elim (Bool-cases (r.out_system_id == thera_system_id)) [
      | inl first ↦ elim (Bool-cases (r.out_system_id == turnur_system_id)) [
        | inl second ↦ absurd (
            hubs_differ (
              sym (eq_of_beq r.out_system_id thera_system_id first)
              ∙ eq_of_beq r.out_system_id turnur_system_id second))
        | inr apart ↦ rw (hole, first, apart) (refl, sym (append-nil h.turnur))
      ]
      | inr apart ↦ elim (Bool-cases (r.out_system_id == turnur_system_id)) [
        | inl second ↦ rw (hole, apart, second) (sym (append-nil h.thera), refl)
        | inr other ↦ rw (hole, apart, other) (sym (append-nil h.thera), sym (append-nil h.turnur))
      ]
    ]
  ]
    where
      hubs_differ : thera_system_id ≢ turnur_system_id
      hubs_differ e = ground arith

  keep_all_lem :
      (h : Hubs X) (raw : List (RawSignature X))
      → ((keep_all X h raw).thera ≡ h.thera ++ of_hub thera_system_id raw)
        × ((keep_all X h raw).turnur ≡ h.turnur ++ of_hub turnur_system_id raw)
  unfolding keep_all
  keep_all_lem h [] = (sym (append-nil h.thera), sym (append-nil h.turnur))
  keep_all_lem h (r ∷ rs) =
      let (a, b) = keep_lem h r in
      let (c, d) = keep_all_lem (keep X h r) rs in
      (
        c
            ∙ ap (λ l. l ++ of_hub thera_system_id rs) a
            ∙ append_assoc h.thera (row_of thera_system_id r) (of_hub thera_system_id rs)
            ∙ ap (λ l. h.thera ++ l) (sym (of_hub-cons thera_system_id r rs)),
        d
            ∙ ap (λ l. l ++ of_hub turnur_system_id rs) b
            ∙ append_assoc h.turnur (row_of turnur_system_id r) (of_hub turnur_system_id rs)
            ∙ ap (λ l. h.turnur ++ l) (sym (of_hub-cons turnur_system_id r rs)),
      )

  -- Each hub's list holds exactly the rows of type `wormhole` from that hub, in the order of the
  -- response; rows of other types or hubs are dropped. The time of the fetch is kept.
  pub partition_lem :
      (raw : List (RawSignature X)) (fetched_at : X.DateTime)
      → ((partition X raw fetched_at).thera ≡ of_hub thera_system_id raw)
        × ((partition X raw fetched_at).turnur ≡ of_hub turnur_system_id raw)
        × ((partition X raw fetched_at).fetched_at ≡ some fetched_at)
  unfolding partition
  partition_lem raw fetched_at =
      let (a, b) = keep_all_lem (record { thera = []; turnur = [] }) raw in (a, b, refl)
