-- ===== src/Tests/Parsing.antt =====
-- Two lines of a stargate file, the second one blank, and files of types and attributes with a line
-- each.
use erbridge_palu.Prelude.{
  ◌≡◌, refl, true, Option, none, some, List, [], ◌∷◌, ℤ, pos, Text, text_of,
}
use erbridge_palu.External.Sample.{sample}
use erbridge_palu.Model.{RawHullCatalog}
use erbridge_palu.Sde.Parse.{
  RawStargate, RawType, RawTypeDogma, parsed, parse_gate_pairs, parse_hull_catalog, trim, strip_bom,
}
use erbridge_palu.Sde.Parse.Join.{IsJoin, parse_hull_catalog-IsJoin}
use erbridge_palu.Sde.Parse.Lines.{Rows, nothing, blank, row}
use erbridge_palu.Sde.Parse.Dedup.{IsLinks, parse_gate_pairs-IsLinks}

abbrev gate : RawStargate
gate = record { solar_system_id = pos 30000144; destination = pos 30000142 }

-- Reads any text that is not empty.
abbrev read_gate : Text → Option RawStargate
read_gate [] = none
read_gate (c ∷ cs) = some gate

abbrev lines : List (Option Text)
lines = some (text_of " gate ") ∷ some (text_of "  ") ∷ []

rows : Rows read_gate lines (gate ∷ [])
unfolding trim strip_bom
rows = row refl refl (blank refl nothing)

parse_gate_pairs-IsLinks_example :
    (pairs : List (ℤ × ℤ)) × (parse_gate_pairs read_gate lines ≡ parsed pairs)
    × IsLinks (gate ∷ []) pairs
parse_gate_pairs-IsLinks_example = parse_gate_pairs-IsLinks read_gate lines (gate ∷ []) rows

abbrev sin : RawType
sin = record { id = pos 22430; group_id = pos 898; name = text_of "Sin"; published = true }

abbrev read_type : Text → Option RawType
read_type s = some sin

-- A hull with a range of four light-years.
abbrev ranged : RawTypeDogma sample
ranged = record {
  id = pos 22430;
  dogma_attributes = record { attribute_id = pos 867; value = 4 } ∷ [];
}

abbrev read_ranged : Text → Option (RawTypeDogma sample)
read_ranged s = some ranged

abbrev line : List (Option Text)
line = some (text_of "row") ∷ []

types : Rows read_type line (sin ∷ [])
unfolding trim strip_bom
types = row refl refl nothing

dogmas : Rows read_ranged line (ranged ∷ [])
unfolding trim strip_bom
dogmas = row refl refl nothing

parse_hull_catalog-IsJoin_example :
    (c : RawHullCatalog sample) × (parse_hull_catalog sample read_type read_ranged line line
      ≡ parsed c)
    × IsJoin sample (sin ∷ []) (ranged ∷ []) c
parse_hull_catalog-IsJoin_example =
    parse_hull_catalog-IsJoin sample read_type read_ranged line line (sin ∷ []) (ranged ∷ []) types
      dogmas
