-- ===== src/Arpa/Contour.antt =====
-- The contours of echoes, mayara-core/src/arpa/contour.rs and the contour following of history.rs.
pub mod Trace
pub mod Found
pub mod Follow
use mayara.Prelude.{
  ℕ, zero, suc, ◌+◌, ◌-◌, ◌/◌, ◌%◌, ◌==◌, Bool, true, false, ◌&&◌, not, List, [], ◌∷◌, ◌++◌, Option,
  none, some, if◌then◌else◌, ltb, length, get_elem?,
}
use mayara.Prelude.Int.{ℤ, pos, negsuc, ◌+ℤ◌, ltb_ℤ, eq_ℤ}
use mayara.Arpa.Doppler.{DopplerState}
use mayara.Arpa.Polar.{Polar, direction, add}
use mayara.Arpa.History.{HistoryBuffer, spoke_len, pix, mod_spokes, get_time_at_angle}

-- The errors that `get_contour` and `get_target` return.
pub data ContourError : Type 0 where
  range_too_high range_too_low no_echo_at_start start_point_not_on_contour broken_contour
        no_contour_found :
      ContourError

pub data ContourResult {ℓ} (A : Type ℓ) : Type ℓ where
  ok : A → ContourResult A
  err : ContourError → ContourResult A

pub record Contour : Type 0 where
  pub length : ℕ
  pub min_angle : ℤ
  pub max_angle : ℤ
  pub min_r : ℤ
  pub max_r : ℤ
  pub position : Polar
  pub points : List Polar

-- MAX_CONTOUR_LENGTH
abbrev pub max_contour_length : ℕ
max_contour_length = 2000

abbrev pub pix_polar : HistoryBuffer → DopplerState → Polar → Bool
pix_polar b d p = pix b d p.angle p.r

-- The first of the four directions, from `i` on, in which there is no echo.
unfoldable pub open_side : ℕ → ℕ → HistoryBuffer → DopplerState → Polar → Option ℕ
open_side zero i b d p = none
open_side (suc n) i b d p =
    let rest = open_side n (i + 1) b d p in
    if not (pix_polar b d (add p (direction i))) then some i else rest

-- `for _ in 0..4`: the first direction, from `index` on, in which there is an echo
unfoldable pub turn : ℕ → ℕ → HistoryBuffer → DopplerState → Polar → Option ℕ
turn zero index b d p = none
turn (suc n) index b d p =
    let rest = turn n ((index + 1) % 4) b d p in
    if pix_polar b d (add p (direction index)) then some index else rest

-- The bounds after one more point.
unfoldable pub update_bounds : Contour → Polar → Contour
update_bounds c p = record c {
  max_angle = if ltb_ℤ c.max_angle p.angle then p.angle else c.max_angle;
  min_angle = if ltb_ℤ p.angle c.min_angle then p.angle else c.min_angle;
  max_r = if ltb_ℤ c.max_r p.r then p.r else c.max_r;
  min_r = if ltb_ℤ p.r c.min_r then p.r else c.min_r;
}

-- the point is pushed, and the bounds are taken to it
unfoldable pub add_point : Contour → Polar → Contour
unfolding update_bounds
add_point c p = record (update_bounds c p) { points = c.points ++ (p ∷ []) }

abbrev pub same_place : Polar → Polar → Bool
same_place p q = eq_ℤ p.r q.r && eq_ℤ p.angle q.angle

-- `while count < MAX_CONTOUR_LENGTH`, on the rounds left
unfoldable pub follow_contour :
    ℕ → HistoryBuffer → DopplerState → Polar → Polar → ℕ → Contour → ContourResult Contour
unfolding add_point turn
follow_contour zero b d start current index c = ok c
follow_contour (suc n) b d start current index c = elim (turn 4 ((index + 3) % 4) b d current) [
  | none ↦ err broken_contour
  | some index' ↦
      let next = add current (direction index') in
      let rest = follow_contour n b d start next index' (add_point c next) in
      if same_place next start then ok (add_point c next) else rest
]

-- the contour at its start
abbrev pub start_contour : Polar → Contour
start_contour p = record {
  length = 0;
  min_angle = p.angle;
  max_angle = p.angle;
  min_r = p.r;
  max_r = p.r;
  position = record { angle = pos 0; r = pos 0; time = 0 };
  points = [];
}

-- `/ 2` of an i32, towards 0
abbrev pub half : ℤ → ℤ
half (pos a) = pos (a / 2)
half (negsuc a) = elim (suc a / 2) [ zero ↦ pos 0 | suc n ↦ negsuc n ]

-- the time that `get_contour` reads; the default stands for a spoke that is not there
abbrev pub time_or_zero : Option ℕ → ℕ
time_or_zero none = 0
time_or_zero (some t) = t

-- What `get_contour` does behind its loop: the angles are brought into a revolution.
unfoldable pub centroid : HistoryBuffer → Contour → Polar
unfolding get_time_at_angle
centroid b c =
    let angle = pos (mod_spokes b (half (c.max_angle +ℤ c.min_angle))) in
    record {
      angle = angle;
      r = half (c.max_r +ℤ c.min_r);
      time = time_or_zero (get_time_at_angle b angle);
    }

unfoldable pub finish_contour : HistoryBuffer → Contour → Contour × Polar
unfolding centroid
finish_contour b c =
    let position = centroid b c in
    (
      record c {
        length = length c.points;
        min_angle = pos (mod_spokes b c.min_angle);
        max_angle = pos (mod_spokes b c.max_angle);
        position = position;
      },
      position,
    )

-- `pol.r as usize >= self.spoke_len()`
abbrev pub too_far : HistoryBuffer → ℤ → Bool
too_far b (pos r) = not (ltb r (spoke_len b))
too_far b (negsuc r) = true

-- `get_contour`
unfoldable pub get_contour : HistoryBuffer → DopplerState → Polar → ContourResult (Contour × Polar)
unfolding finish_contour open_side follow_contour
get_contour b d p =
    if too_far b p.r
    then err range_too_high
    else (if ltb_ℤ p.r (pos 4)
        then err range_too_low
        else (if not (pix_polar b d p) then err no_echo_at_start else (elim (open_side 4 0 b d p) [
          | none ↦ err start_point_not_on_contour
          | some index ↦
              elim (follow_contour max_contour_length b d p p ((index + 1) % 4) (start_contour p)) [
                | err e ↦ err e
                | ok c ↦ ok (finish_contour b c)
              ]
        ])))
