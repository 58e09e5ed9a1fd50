-- ===== src/Arpa/Polar.antt =====
-- Polar coordinates, mayara-core/src/arpa/polar.rs: angles in spokes and radii in pixels (i32).
use mayara.Prelude.{ℕ, zero, suc, ◌+◌, Bool, ◌&&◌, ◌||◌}
use mayara.Prelude.Int.{leb_ℤ, ℤ, pos, negsuc, ◌+ℤ◌, ltb_ℤ}

pub record Polar : Type 0 where
  pub angle : ℤ
  pub r : ℤ
  pub time : ℕ  -- u64

-- `Polar::angle_is_between`
unfoldable pub angle_is_between : Polar → ℤ → ℤ → Bool
angle_is_between p start end =
    (leb_ℤ start p.angle && ltb_ℤ p.angle end)
    || (ltb_ℤ end start && (leb_ℤ start p.angle || ltb_ℤ p.angle end))

-- `Add for Polar`
unfoldable pub add : Polar → Polar → Polar
add p q = record { angle = p.angle +ℤ q.angle; r = p.r +ℤ q.r; time = p.time + q.time }

-- `FOUR_DIRECTIONS[i]`, at an index below 4
abbrev pub direction : ℕ → Polar
direction zero = record { angle = pos 0; r = pos 1; time = 0 }
direction (suc zero) = record { angle = pos 1; r = pos 0; time = 0 }
direction (suc (suc zero)) = record { angle = pos 0; r = negsuc 0; time = 0 }
direction _ = record { angle = negsuc 0; r = pos 0; time = 0 }
