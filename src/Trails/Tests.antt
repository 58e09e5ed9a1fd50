-- ===== src/Trails/Tests.antt =====
-- Stores and calls on which the theorems on trails are applied.
use mayara.Prelude.{ℕ, ◌*◌, ◌≤◌, ◌≡◌, ◌⊎◌, refl, true, none, some, List, [], ◌∷◌, arith}
use mayara.Trails.{TrailPoint, TrailStore, default_settings, new, trail_count, total_points}
use mayara.Trails.Capped.{AllCapped}
use mayara.Trails.Valid.{Call, adding, setting, clearing, pruning, run, run_lem}
use mayara.Trails.Adding.{IsIgnored, IsAdded, add_point_lem}

abbrev point : ℕ → TrailPoint
point t = record { timestamp = t; bearing = 1; distance = 2; latitude = none; longitude = none }

abbrev calls : List Call
calls =
    adding 7 (point 5000)
    ∷ adding 7 (point 6000)
    ∷ setting (record default_settings { max_points = 1 })
    ∷ adding 7 (point 9000)
    ∷ clearing 8
    ∷ pruning 400000
    ∷ []

run_lem_example :
    (s : TrailStore) × (run true calls (new default_settings) ≡ some s)
    × AllCapped s.settings.max_points s.trails
    × (total_points s ≤ trail_count s * s.settings.max_points)
run_lem_example =
    run_lem true default_settings calls (omega arith, omega arith)
      (tt, (tt, ((omega arith, omega arith), (tt, (tt, (tt, tt))))))
      (λ e. (omega arith, (omega arith, (tt, (omega arith, (tt, (tt, tt)))))))

abbrev store : TrailStore
store = record {
  settings = default_settings;
  trails = (7, record { points = point 5000 ∷ []; max_points = 100 }) ∷ [];
  last_update = (7, 5000) ∷ [];
}

add_point_lem_example : IsIgnored true 7 (point 9000) store ⊎ IsAdded true 7 (point 9000) store 8
add_point_lem_example =
    add_point_lem true 7 (point 9000) store 8
      (record { room = omega arith; fits = omega arith; capped = ((refl, omega arith), tt) })
      (omega arith, omega arith)
