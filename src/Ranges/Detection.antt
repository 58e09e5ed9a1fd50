-- ===== src/Ranges/Detection.antt =====
-- RangeDetection: a radar is switched through the candidate ranges, and what it reports is kept.
pub mod Progress
pub mod Found
use mayara.Prelude.{
  ℕ, ◌+◌, Bool, true, false, ◌&&◌, ◌||◌, List, [], ◌∷◌, Option, none, some, if◌then◌else◌, drop,
}
use mayara.Prelude.Int.{eq_ℤ, leb_ℤ, ℤ, pos, ltb_ℤ}
use mayara.Ranges.{Range, Ranges, initial, is_marked, new, empty, push, mark}

pub data RangeDetectionResult : Type 0 where
  no_range : RangeDetectionResult
  complete : Ranges → ℤ → RangeDetectionResult
  next_range : ℤ → RangeDetectionResult

-- The key of the radar, which only the log reads, is left out.
pub record RangeDetection : Type 0 where
  pub saved_range : ℤ
  pub min_range : ℤ
  pub max_range : ℤ
  pub ranges : Ranges
  pub ranges_to_try : Ranges
  pub index_to_try : ℕ

abbrev pub in_range : ℤ → ℤ → ℤ → Bool
in_range lo hi r = leb_ℤ lo r && leb_ℤ r hi

abbrev pub candidates : ℤ → ℤ → List ℤ → List Range
candidates lo hi [] = []
candidates lo hi (r ∷ rs) =
    let rest = candidates lo hi rs in if in_range lo hi r then initial r ∷ rest else rest

-- `RangeDetection::new_for_brand`, at the table of the brand's ranges.
unfoldable pub new_detection : List ℤ → ℤ → ℤ → RangeDetection
unfolding new empty initial
new_detection all_ranges min_range max_range = record {
  saved_range = pos 0;
  min_range = min_range;
  max_range = max_range;
  ranges = empty;
  ranges_to_try = new (candidates min_range max_range all_ranges);
  index_to_try = 0;
}

-- The loop of `advance_to_next_index` over the ranges from the index on: the range that is found,
-- and the index behind it.
unfoldable pub next_unmarked : ℕ → List Range → Option Range × ℕ
next_unmarked i [] = (none, i)
next_unmarked i (r ∷ rs) =
    let rest = next_unmarked (i + 1) rs in if is_marked r then rest else (some r, i + 1)

-- `advance_to_next_index`
unfoldable pub advance_to_next_index : RangeDetection → Option Range × RangeDetection
unfolding next_unmarked
advance_to_next_index d =
    let (found, i) = next_unmarked d.index_to_try (drop d.index_to_try d.ranges_to_try.all) in
    (found, record d { index_to_try = i })

-- what `found_range` does before it advances
unfoldable pub record_range : RangeDetection → ℤ → RangeDetection
unfolding initial
record_range d range = record d {
  saved_range = if eq_ℤ d.saved_range (pos 0) then range else d.saved_range;
  ranges = (push d.ranges (initial range)).0;
  ranges_to_try = (mark d.ranges_to_try (initial range)).0;
}

-- what `found_range` makes of the range that is next, if there is one
unfoldable pub conclude : Option Range → RangeDetection → RangeDetectionResult × RangeDetection
conclude (some r) d = (next_range r.distance, d)
conclude none d =
    let ranges = new d.ranges.all in (complete ranges d.saved_range, record d { ranges = ranges })

-- `found_range`
unfoldable pub found_range : RangeDetection → ℤ → RangeDetectionResult × RangeDetection
found_range d range =
    if ltb_ℤ range d.min_range || ltb_ℤ d.max_range range
    then (no_range, d)
    else (let (found, d') = advance_to_next_index (record_range d range) in conclude found d')
