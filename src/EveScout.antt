-- ===== src/EveScout.antt =====
-- src/eve_scout.rs: the signatures, their partition by hub, and the snapshot.
pub mod Split
pub mod Fetch
use erbridge_palu.Prelude.{
  ℕ, ◌+◌, Bool, Option, none, some, List, [], ◌∷◌, ◌++◌, length, ℤ, pos, Text, text_of, int_eq,
  text_eq, PartialEq, ◌==◌, if◌then◌else◌,
}
use erbridge_palu.External.{External}

abbrev pub thera_system_id : ℤ
thera_system_id = pos 31000005

abbrev pub turnur_system_id : ℤ
turnur_system_id = pos 30002086

module _ (X : External) where
  open X use {DateTime, after}

  pub record RawSignature : Type 0 where
    pub out_system_id : ℤ
    pub in_system_id : ℤ
    pub in_system_name : Text
    pub max_ship_size : Option Text
    pub signature_type : Text
    pub expires_at : DateTime

  pub record Signature : Type 0 where
    pub out_system_id : ℤ
    pub in_system_id : ℤ
    pub in_system_name : Text
    pub max_ship_size : Option Text
    pub expires_at : DateTime

  unfoldable pub is_live : Signature → DateTime → Bool
  is_live sig now = after sig.expires_at now

  pub record EveScoutSnapshot : Type 0 where
    pub thera : List Signature
    pub turnur : List Signature
    pub fetched_at : Option DateTime

  unfoldable pub sig_count : EveScoutSnapshot → ℕ
  sig_count s = length s.thera + length s.turnur

  unfoldable pub signature_of : RawSignature → Signature
  signature_of r = record {
    out_system_id = r.out_system_id;
    in_system_id = r.in_system_id;
    in_system_name = r.in_system_name;
    max_ship_size = r.max_ship_size;
    expires_at = r.expires_at;
  }

  -- The two vectors that the loop of `partition` pushes to.
  pub record Hubs : Type 0 where
    pub thera : List Signature
    pub turnur : List Signature

  -- The `match` on the hub.
  unfoldable pub push_sig : Hubs → Signature → Hubs
  push_sig h sig =
      if sig.out_system_id == thera_system_id
      then record { thera = h.thera ++ sig ∷ []; turnur = h.turnur }
      else if sig.out_system_id == turnur_system_id
      then record { thera = h.thera; turnur = h.turnur ++ sig ∷ [] }
      else h

  -- One pass of the loop: other types of signatures are skipped.
  unfoldable pub keep : Hubs → RawSignature → Hubs
  unfolding push_sig signature_of
  keep h r = if r.signature_type == text_of "wormhole" then push_sig h (signature_of r) else h

  unfoldable pub keep_all : Hubs → List RawSignature → Hubs
  unfolding keep
  keep_all h [] = h
  keep_all h (r ∷ rs) = keep_all (keep h r) rs

  unfoldable pub partition : List RawSignature → DateTime → EveScoutSnapshot
  unfolding keep_all
  partition raw fetched_at =
      let h = keep_all (record { thera = []; turnur = [] }) raw in
      record { thera = h.thera; turnur = h.turnur; fetched_at = some fetched_at }
