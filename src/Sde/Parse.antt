-- ===== src/Sde/Parse.antt =====
-- src/sde/types.rs and src/sde/parse.rs: the rows of the static data, and the loops that read
-- them line by line. serde_json is a parameter, one function for each type of row.
pub mod Lines
pub mod Dedup
pub mod Join
use erbridge_palu.Prelude.{
  ℕ, suc, ◌+◌, Bool, ◌&&◌, ◌||◌, Option, none, some, List, [], ◌∷◌, ◌++◌, reverse, find, leb,
  nat_beq, ℤ, pos, leb_ℤ, Text, int_eq, pair_eq, ◌==◌, if◌then◌else◌,
}
use erbridge_palu.Prelude.HashMap
use erbridge_palu.Prelude.HashMap.{HashMap}
use erbridge_palu.Prelude.HashSet
use erbridge_palu.Prelude.HashSet.{HashSet}
use erbridge_palu.External.{External}
use erbridge_palu.Model.{SecClass, System, RawHull, RawHullCatalog}

-- `Result<A, ParseError>`: the line of a JSON error is kept.
pub data Parsed {ℓ} (A : Type ℓ) : Type ℓ where
  parsed : A → Parsed A
  json : (line : ℕ) → Parsed A
  io : Parsed A

-- `char::is_whitespace`
unfoldable pub is_whitespace : ℕ → Bool
is_whitespace c =
    leb 9 c && leb c 13
    || nat_beq c 32
    || nat_beq c 133
    || nat_beq c 160
    || nat_beq c 5760
    || leb 8192 c && leb c 8202
    || nat_beq c 8232
    || nat_beq c 8233
    || nat_beq c 8239
    || nat_beq c 8287
    || nat_beq c 12288

unfoldable pub trim_start : Text → Text
unfolding is_whitespace
trim_start [] = []
trim_start (c ∷ s) = if is_whitespace c then trim_start s else c ∷ s

unfoldable pub trim : Text → Text
unfolding trim_start
trim s = reverse (trim_start (reverse (trim_start s)))

-- The byte order mark is U+FEFF.
unfoldable pub strip_bom : Text → Text
strip_bom [] = []
strip_bom (c ∷ s) = if nat_beq c 65279 then s else c ∷ s

module _ {ℓ κ} {R : Type ℓ} {S : Type κ} (from_str : Text → Option R) (pass : S → R → S) where
  -- One pass of a loop over the lines: an empty line is skipped. `none` is a line that could not
  -- be read.
  unfoldable pub read_line : ℕ → S → Option Text → Parsed S
  unfolding trim strip_bom
  read_line i s none = io
  read_line i s (some line) = elim (strip_bom (trim line)) [
    | [] ↦ parsed s
    | c ∷ cs ↦ elim (from_str (c ∷ cs)) [ none ↦ json (i + 1) | some raw ↦ parsed (pass s raw) ]
  ]

  -- The loop, from line `i` on.
  unfoldable pub read_lines : ℕ → S → List (Option Text) → Parsed S
  unfolding read_line
  read_lines i s [] = parsed s
  read_lines i s (line ∷ lines) = elim (read_line i s line) [
    | io ↦ io
    | json n ↦ json n
    | parsed s' ↦ read_lines (suc i) s' lines
  ]

abbrev pub attr_jump_drive_range : ℤ
attr_jump_drive_range = pos 867

abbrev pub attr_jump_drive_range_bonus : ℤ
attr_jump_drive_range_bonus = pos 870

abbrev pub jdc_skill_type_id : ℤ
jdc_skill_type_id = pos 21611

pub record RawStargate : Type 0 where
  pub solar_system_id : ℤ
  pub destination : ℤ

pub record RawType : Type 0 where
  pub id : ℤ
  pub group_id : ℤ
  pub name : Text
  pub published : Bool

-- The pairs so far, and the keys that were seen.
pub record Pairs : Type 0 where
  pub seen : HashSet (ℤ × ℤ)
  pub pairs : List (ℤ × ℤ)

unfoldable pub pair_key : ℤ → ℤ → ℤ × ℤ
pair_key a b = if leb_ℤ a b then (a, b) else (b, a)

-- One pass of the loop of `parse_gate_pairs`.
unfoldable pub push_pair : Pairs → RawStargate → Pairs
unfolding pair_key
push_pair p raw =
    let key = pair_key raw.solar_system_id raw.destination in
    if HashSet.contains key p.seen
    then p
    else record { seen = HashSet.insert key p.seen; pairs = p.pairs ++ key ∷ [] }

abbrev pub no_pairs : Pairs
no_pairs = record { seen = []; pairs = [] }

-- The last `Ok(..)`.
unfoldable pub map_parsed {ℓ κ} : {A : Type ℓ} {B : Type κ} → (A → B) → Parsed A → Parsed B
map_parsed f (parsed a) = parsed (f a)
map_parsed f (json n) = json n
map_parsed f io = io

unfoldable pub parse_gate_pairs :
    (Text → Option RawStargate) → List (Option Text) → Parsed (List (ℤ × ℤ))
unfolding read_lines push_pair map_parsed
parse_gate_pairs from_str lines =
    map_parsed (λ p. p.pairs) (read_lines from_str push_pair 0 no_pairs lines)

-- One pass of the loop over the types: the published ones are retained.
unfoldable pub retain : HashMap ℤ (Text × ℤ) → RawType → HashMap ℤ (Text × ℤ)
retain published raw =
    if raw.published then HashMap.insert raw.id (raw.name, raw.group_id) published else published

module _ (X : External) where
  open X use {F32, F64, at_least_045, above_zero, div, of_nat}

  pub record RawSystem : Type 0 where
    pub id : ℤ
    pub name : Text
    pub security_status : F32
    pub region_id : ℤ
    pub constellation_id : ℤ
    pub position : F64 × F64 × F64

  pub record RawDogmaAttribute : Type 0 where
    pub attribute_id : ℤ
    pub value : F64

  pub record RawTypeDogma : Type 0 where
    pub id : ℤ
    pub dogma_attributes : List RawDogmaAttribute

  unfoldable pub classify_security : F32 → Bool → SecClass
  classify_security sec is_wormhole =
      if is_wormhole
      then SecClass.wormhole
      else (if at_least_045 sec
          then SecClass.highsec
          else (if above_zero sec then SecClass.lowsec else SecClass.nullsec))

  unfoldable pub system_from_raw : RawSystem → System X
  unfolding classify_security
  system_from_raw raw = record {
    id = raw.id;
    name = raw.name;
    security = raw.security_status;
    sec_class = classify_security raw.security_status (leb_ℤ (pos 11000000) raw.region_id);
    coords = raw.position;
    region_id = raw.region_id;
    constellation_id = raw.constellation_id;
  }

  unfoldable pub push_system : List (System X) → RawSystem → List (System X)
  unfolding system_from_raw
  push_system systems raw = systems ++ system_from_raw raw ∷ []

  unfoldable pub parse_systems :
      (Text → Option RawSystem) → List (Option Text) → Parsed (List (System X))
  unfolding read_lines push_system
  parse_systems from_str lines = read_lines from_str push_system 0 [] lines

  unfoldable pub attribute : ℤ → RawTypeDogma → Option F64
  attribute id raw = elim (find (λ a. a.attribute_id == id) raw.dogma_attributes) [
    | none ↦ none
    | some a ↦ some a.value
  ]

  -- The bonus, when the row is the skill's.
  unfoldable pub bonus_of : RawTypeDogma → Option F64 → Option F64
  unfolding attribute
  bonus_of raw before =
      if raw.id == jdc_skill_type_id
      then elim (attribute attr_jump_drive_range_bonus raw) [
        | none ↦ before
        | some value ↦ some (div value (of_nat 100))
      ]
      else before

  -- The hull, when its type was retained and has a range.
  unfoldable pub hull_of : HashMap ℤ (Text × ℤ) → RawTypeDogma → List (RawHull X)
  unfolding attribute
  hull_of published raw = elim (HashMap.get raw.id published) [
    | none ↦ []
    | some kept ↦ elim (attribute attr_jump_drive_range raw) [
      | none ↦ []
      | some value ↦
          record { type_id = raw.id; name = kept.0; group_id = kept.1; base_ly = value } ∷ []
    ]
  ]

  -- One pass of the loop over the dogma rows.
  unfoldable pub read_dogma :
      HashMap ℤ (Text × ℤ) → RawHullCatalog X → RawTypeDogma → RawHullCatalog X
  unfolding bonus_of hull_of
  read_dogma published c raw = record {
    hulls = c.hulls ++ hull_of published raw;
    jdc_bonus_per_level = bonus_of raw c.jdc_bonus_per_level;
  }

  unfoldable pub parse_hull_catalog :
      (Text → Option RawType)
      → (Text → Option RawTypeDogma)
      → List (Option Text)
      → List (Option Text)
      → Parsed (RawHullCatalog X)
  unfolding read_lines retain read_dogma
  parse_hull_catalog type_from_str dogma_from_str types_lines dogma_lines =
      elim (read_lines type_from_str retain 0 [] types_lines) [
        | io ↦ io
        | json n ↦ json n
        | parsed published ↦
            let before : RawHullCatalog X = record { hulls = []; jdc_bonus_per_level = none } in
            read_lines dogma_from_str (read_dogma published) 0 before dogma_lines
      ]
