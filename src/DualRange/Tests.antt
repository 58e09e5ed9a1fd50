-- ===== src/DualRange/Tests.antt =====
-- A controller on which the theorems on the dual range are applied.
use mayara.Prelude.{◌≡◌, ◌⊎◌, true, false, [], ◌∷◌, arith}
use mayara.DualRange.{DualRangeConfig, DualRangeController, new, find_closest_range}
use mayara.DualRange.Closest.{
  IsWithin, config, secondary, handle_all, handle_all-IsWithin, Nearest, find_closest_range_lem,
}

abbrev too_far : DualRangeConfig
too_far = record { enabled = true; secondary_range = 30000 }

abbrev controller : DualRangeController
controller = record {
  state = record {
    enabled = false;
    primary_range = 1852;
    secondary_range = 926;
    max_secondary_range = 22224;
  };
  available_ranges = 926 ∷ 1852 ∷ 5556 ∷ [];
}

handle_all-IsWithin_example :
    IsWithin (handle_all (new 22224 (926 ∷ 44448 ∷ [])) (config too_far ∷ secondary 5556 ∷ []))
handle_all-IsWithin_example =
    handle_all-IsWithin 22224 (926 ∷ 44448 ∷ []) (config too_far ∷ secondary 5556 ∷ [])
      (omega arith)

find_closest_range_lem_example :
    (controller.available_ranges ≡ []) × (find_closest_range controller 2000 ≡ 926)
    ⊎ Nearest 2000 (926 ∷ 1852 ∷ 5556 ∷ []) (find_closest_range controller 2000)
find_closest_range_lem_example = find_closest_range_lem controller 2000
