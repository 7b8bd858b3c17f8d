-- ===== src/Services/Range.antt =====
-- src/services/range.rs: the systems within one jump.
pub mod Tally
pub mod Reachable
use Prim.Native.Nat.{Ordering}
use erbridge_palu.Prelude.{
  ℕ, ◌+◌, Option, none, some, List, [], ◌∷◌, length, nat_beq, index, map, text_eq, Text,
  if◌then◌else◌, Outcome, done, ◌>>=◌,
}
use erbridge_palu.Prelude.HashMap
use erbridge_palu.Prelude.HashMap.{HashMap}
use erbridge_palu.Prelude.Sorting.{sort_by, or_equal}
use erbridge_palu.External.{External}
use erbridge_palu.Dto.{RangeHull, RangeReachable, RangeResponse, RangeSummary, RangeSystem}
use erbridge_palu.Model.{GraphData, System, label, is_highsec}
use erbridge_palu.Range.{radius_m2, ly_between, round2}
use mathlib.Core.Option

-- `iter().last()`
unfoldable pub last {ℓ} : {A : Type ℓ} → List A → Option A
last [] = none
last (x ∷ []) = some x
last (x ∷ y ∷ ys) = last (y ∷ ys)

-- `*map.entry(key).or_insert(0) += 1`
unfoldable pub count_one : Text → HashMap Text ℕ → HashMap Text ℕ
count_one key m = HashMap.insert key (Option.get_or (HashMap.get key m) 0 + 1) m

module _ (X : External) where
  open X use {F64, of_nat}

  -- An entry with its distance, not rounded.
  abbrev pub Entry : Type 0
  Entry = RangeReachable X × F64

  unfoldable pub tally : HashMap Text ℕ → List Entry → HashMap Text ℕ
  unfolding count_one
  tally m [] = m
  tally m (r ∷ rs) = tally (count_one r.0.sec_class m) rs

  unfoldable pub build_summary : List Entry → RangeSummary X
  unfolding tally last round2
  build_summary reachable = record {
    reachable_count = length reachable;
    farthest_ly = Option.get_or (Option.map (λ r. round2 X r.1) (last reachable)) (of_nat 0);
    by_sec_class = tally [] reachable;
  }

  unfoldable pub range_system : System X → RangeSystem X
  unfolding label
  range_system s = record {
    system = s.name;
    system_id = s.id;
    security = s.security;
    sec_class = label s.sec_class;
  }

  unfoldable pub entry_of : F64 × F64 × F64 → System X → Entry
  unfolding ly_between round2 label
  entry_of src_coords s =
      let ly = ly_between X s.coords src_coords in
      (
        record {
          system = s.name;
          system_id = s.id;
          security = s.security;
          sec_class = label s.sec_class;
          jump_ly = round2 X ly;
        },
        ly,
      )

  unfoldable pub nearer : Entry → Entry → Ordering
  unfolding or_equal
  nearer a b = or_equal (X.partial_cmp a.1 b.1)

  module _ (graph : GraphData X) where
    -- The items of the query, without the source and the systems of high security.
    unfoldable pub entries : ℕ → F64 × F64 × F64 → List ℕ → Outcome (List Entry)
    unfolding entry_of is_highsec
    entries source src_coords [] = done []
    entries source src_coords (item ∷ items) = do
      rest ← entries source src_coords items
      if nat_beq item source
          then done rest
          else (index graph.systems item >>= λ s.
              done (if is_highsec s.sec_class then rest else entry_of src_coords s ∷ rest))

    unfoldable pub response_of : System X → RangeHull X → ℕ → F64 → List Entry → RangeResponse X
    unfolding sort_by nearer build_summary range_system
    response_of src_sys hull jdc_level effective_ly found =
        let reachable = sort_by nearer found in
        record {
          summary = build_summary reachable;
          jdc_level = jdc_level;
          effective_ly = effective_ly;
          source = range_system src_sys;
          hull = hull;
          reachable = map (λ r. r.0) reachable;
        }

    unfoldable pub compute_reachable : ℕ → RangeHull X → ℕ → F64 → Outcome (RangeResponse X)
    unfolding radius_m2 entries response_of
    compute_reachable source hull jdc_level effective_ly = do
      src_sys ← index graph.systems source
      let hits = X.within_unsorted graph.spatial_index src_sys.coords (radius_m2 X effective_ly)
      found ← entries source src_sys.coords hits
      done (response_of src_sys hull jdc_level effective_ly found)
