-- ===== src/GuardZones/Tests.antt =====
-- Spokes on which the theorem on the alarm of a zone is applied.
use mayara.Prelude.{ℕ, ◌≡◌, false, List, [], ◌∷◌, arith, leb}
use mayara.GuardZones.Step.{default_state, zone_step}
use mayara.GuardZones.Alarm.{run, zone_step_lem}

-- three quiet spokes of one revolution
abbrev quiet : List (ℕ × ℕ)
quiet = (1001, 10) ∷ (1002, 0) ∷ (1003, 20) ∷ []

zone_step_lem_example :
    ((run 3 128 quiet (zone_step 3 1000 128 200 default_state).1).0 ≡ false)
    × ((zone_step 3 1004 128 200 (run 3 128 quiet (zone_step 3 1000 128 200 default_state).1).1).0
        ≡ leb 3 3)
zone_step_lem_example =
    zone_step_lem 3 128 (1000, 200) (1004, 200) quiet default_state (omega arith) (omega arith)
      (omega arith) (omega arith, (omega arith, (omega arith, tt)))
