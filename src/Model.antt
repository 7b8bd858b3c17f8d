-- ===== src/Model.antt =====
-- src/model.rs: systems, raw data, the hull catalog and the graph data.
pub mod Catalog
pub mod Least
use erbridge_palu.Prelude.{
  ℕ, Bool, true, false, Option, none, some, List, [], ◌∷◌, length, nat_beq, ℤ, Text, text_of,
  int_eq, text_eq, PartialEq, to_ascii_lowercase, if◌then◌else◌,
}
use erbridge_palu.Prelude.HashMap
use erbridge_palu.Prelude.HashMap.{HashMap}
use erbridge_palu.External.{External}
use mathlib.Core.Option

pub data SecClass : Type 0 where
  highsec lowsec nullsec wormhole : SecClass

-- `SecClass::label`
unfoldable pub label : SecClass → Text
label highsec = text_of "Highsec"
label lowsec = text_of "Lowsec"
label nullsec = text_of "Nullsec"
label wormhole = text_of "Wormhole"

-- `c == SecClass::Highsec`
unfoldable pub is_highsec : SecClass → Bool
is_highsec highsec = true
is_highsec _ = false

module _ (X : External) where
  open X use {F32, F64, UnGraph, KdTree, lt, of_nat}

  pub record System : Type 0 where
    pub id : ℤ
    pub name : Text
    pub security : F32
    pub sec_class : SecClass
    pub coords : F64 × F64 × F64
    pub region_id : ℤ
    pub constellation_id : ℤ

  pub record RawHull : Type 0 where
    pub type_id : ℤ
    pub name : Text
    pub group_id : ℤ
    pub base_ly : F64

  pub record RawHullCatalog : Type 0 where
    pub hulls : List RawHull
    pub jdc_bonus_per_level : Option F64

  pub record RawSdeData : Type 0 where
    pub systems : List System
    pub gate_pairs : List (ℤ × ℤ)
    pub hulls : RawHullCatalog

  pub record HullEntry : Type 0 where
    pub name : Text
    pub type_id : ℤ
    pub base_ly : F64
    pub group_id : ℤ

  pub record HullCatalog : Type 0 where
    pub names : HashMap Text HullEntry
    pub type_ids : HashMap ℤ HullEntry
    pub min_base_ly_by_group : HashMap ℤ F64
    pub bonus : F64

  -- `Default for HullCatalog`, but for the bonus.
  abbrev pub empty_catalog : F64 → HullCatalog
  empty_catalog bonus = record {
    names = [];
    type_ids = [];
    min_base_ly_by_group = [];
    bonus = bonus;
  }

  -- `entry(group).and_modify(..).or_insert(base_ly)`
  unfoldable pub lower_min : ℤ → F64 → HashMap ℤ F64 → HashMap ℤ F64
  lower_min group base mins = elim (HashMap.get group mins) [
    | none ↦ HashMap.insert group base mins
    | some m ↦ if lt base m then HashMap.insert group base mins else mins
  ]

  unfoldable pub entry_of : RawHull → HullEntry
  entry_of h = record {
    name = h.name;
    type_id = h.type_id;
    base_ly = h.base_ly;
    group_id = h.group_id;
  }

  -- One pass of the loop in `from_raw`.
  unfoldable pub add_hull : HullCatalog → RawHull → HullCatalog
  unfolding lower_min entry_of
  add_hull c h = record {
    names = HashMap.insert (to_ascii_lowercase h.name) (entry_of h) c.names;
    type_ids = HashMap.insert h.type_id (entry_of h) c.type_ids;
    min_base_ly_by_group = lower_min h.group_id h.base_ly c.min_base_ly_by_group;
    bonus = c.bonus;
  }

  unfoldable pub add_hulls : HullCatalog → List RawHull → HullCatalog
  unfolding add_hull
  add_hulls c [] = c
  add_hulls c (h ∷ hs) = add_hulls (add_hull c h) hs

  unfoldable pub from_raw : RawHullCatalog → HullCatalog
  unfolding add_hulls
  from_raw raw =
      add_hulls (empty_catalog (Option.get_or raw.jdc_bonus_per_level (of_nat 0))) raw.hulls

  unfoldable pub len : HullCatalog → ℕ
  len c = length c.type_ids

  unfoldable pub by_name : HullCatalog → Text → Option HullEntry
  by_name c name = HashMap.get (to_ascii_lowercase name) c.names

  unfoldable pub by_type_id : HullCatalog → ℤ → Option HullEntry
  by_type_id c id = HashMap.get id c.type_ids

  unfoldable pub min_base_ly_for_group : HullCatalog → ℤ → Option F64
  min_base_ly_for_group c group = HashMap.get group c.min_base_ly_by_group

  unfoldable pub bonus_per_level : HullCatalog → F64
  bonus_per_level c = c.bonus

  -- `System::is_wormhole`
  unfoldable pub is_wormhole : System → Bool
  is_wormhole s = elim s.sec_class [ wormhole ↦ true | _ ↦ false ]

  -- `build_number` is a `u64`.
  pub record GraphData : Type 0 where
    pub systems : List System
    pub id_to_idx : HashMap ℤ ℕ
    pub name_to_idx : HashMap Text ℕ
    pub gate_graph : UnGraph
    pub spatial_index : KdTree
    pub hulls : HullCatalog
    pub build_number : ℕ
