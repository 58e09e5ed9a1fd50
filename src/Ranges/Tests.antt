-- ===== src/Ranges/Tests.antt =====
-- Tables and detections on which the theorems on ranges are applied.
use mayara.Prelude.{◌<◌, ◌≡◌, refl, true, List, [], ◌∷◌, arith}
use mathlib.Core.List.{Perm}
use mayara.Prelude.Int.{ℤ, pos}
use mayara.Ranges.{Range, Ranges, new_range, new, distance_to_index, sort_ranges, initial}
use mayara.Ranges.Sorting.{IsSorted}
use mayara.Ranges.Tables.{IsSplit, new-IsSplit}
use mayara.Ranges.Lookup.{distance_to_index_lem, Answers}
use mayara.Ranges.Detection.{new_detection, found_range, next_range}
use mayara.Ranges.Detection.Progress.{detect, detection_answers}
use mayara.Ranges.Detection.Found.{detection_finds, holds}

abbrev unsorted : List Range
unsorted = new_range (pos 1852) 0 ∷ new_range (pos 500) 0 ∷ new_range (pos 926) 0 ∷ []

new-IsSplit_example :
    IsSorted (new unsorted).all × Perm (new unsorted).all unsorted × IsSplit (new unsorted)
new-IsSplit_example = new-IsSplit unsorted

abbrev table : Ranges
table = record {
  all = new_range (pos 500) 0 ∷ new_range (pos 926) 0 ∷ new_range (pos 1852) 0 ∷ [];
  metric_ranges = new_range (pos 500) 0 ∷ [];
  nautical_ranges = new_range (pos 926) 1 ∷ new_range (pos 1852) 2 ∷ [];
  ordered = true;
}

distance_to_index_lem_example :
    (distance_to_index table (pos 600) < 3)
    × Answers table (pos 600) (distance_to_index table (pos 600))
distance_to_index_lem_example = distance_to_index_lem table (pos 600) (omega arith)

abbrev brand_ranges : List ℤ
brand_ranges = pos 1852 ∷ pos 100 ∷ pos 500 ∷ pos 926 ∷ []

-- the second answer: 926 m, whatever was reported before
detection_answers_example :
    (found_range
      (detect (new_detection brand_ranges (pos 200) (pos 2000)) (pos 500 ∷ []))
      (pos 926)).0
    ≡ next_range (pos 926)
unfolding sort_ranges initial
detection_answers_example =
    detection_answers brand_ranges (pos 200) (pos 2000) (pos 926) (pos 500 ∷ []) (refl, tt) refl
      (omega arith)

detection_finds_example :
    holds
      (pos 500)
      (detect (new_detection brand_ranges (pos 200) (pos 2000)) (pos 500 ∷ pos 50 ∷ []))
    ≡ true
detection_finds_example =
    detection_finds brand_ranges (pos 200) (pos 2000) (pos 500) (pos 500 ∷ pos 50 ∷ [])
