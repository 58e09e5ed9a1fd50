-- ===== src/Arpa/Blob.antt =====
-- Blobs of echoes in the history buffer, mayara-core/src/arpa/history.rs: small ones are erased, the
-- edge of one is looked for, and a target is searched near a point.
pub mod Fading
pub mod Finding
pub mod Inside
pub mod Target
use mayara.Prelude.{
  ℕ, zero, suc, ◌+◌, ◌-◌, ◌*◌, ◌/◌, ◌%◌, Bool, true, false, ◌&&◌, not, List, [], ◌∷◌, ◌++◌, Option,
  none, some, if◌then◌else◌, ltb, length, get_elem?, min, max,
}
use mayara.Prelude.Int.{ℤ, pos, negsuc, ◌+ℤ◌, ◌-ℤ◌, ltb_ℤ, leb_ℤ, pos_part}
use mayara.Arpa.Doppler.{DopplerState}
use mayara.Arpa.Polar.{Polar, direction, add}
use mayara.Arpa.History.{
  HistoryPixel, HistorySpoke, HistoryBuffer, empty_pixel, clear_target, pix, mod_spokes,
}
use mayara.Arpa.Contour.{
  ContourResult, ok, err, no_contour_found, Contour, open_side, turn, update_bounds, start_contour,
  same_place, get_contour,
}

-- `xs[i] = f(xs[i])`, where there is such an element
abbrev pub modify_at {ℓ} : {A : Type ℓ} → (A → A) → ℕ → List A → List A
modify_at f i [] = []
modify_at f zero (x ∷ xs) = f x ∷ xs
modify_at f (suc i) (x ∷ xs) = x ∷ modify_at f i xs

-- `if let Some(pixel) = self.spokes[i].sweep.get_mut(r as usize) { ... }`
unfoldable pub update_pixel : (HistoryPixel → HistoryPixel) → ℕ → ℤ → HistoryBuffer → HistoryBuffer
update_pixel f i (pos r) b = record b {
  spokes = modify_at (λ (s : HistorySpoke). record s { sweep = modify_at f r s.sweep }) i b.spokes;
}
update_pixel f i (negsuc r) b = b

-- the number of steps of `lo..=hi`
abbrev pub steps : ℤ → ℤ → ℕ
steps lo hi = pos_part (hi -ℤ lo +ℤ pos 1)

-- `for r in ...`, from `r` on
unfoldable pub on_radii : (HistoryPixel → HistoryPixel) → ℕ → ℤ → ℕ → HistoryBuffer → HistoryBuffer
on_radii f zero r i b = b
on_radii f (suc n) r i b = on_radii f n (r +ℤ pos 1) i (update_pixel f i r b)

-- `for a in min_angle..=max_angle { for r in min_r..=max_r { ... } }`, from the angle `a` on
unfoldable pub erase : ℕ → ℤ → ℤ → ℤ → HistoryBuffer → HistoryBuffer
erase zero a min_r max_r b = b
erase (suc n) a min_r max_r b =
    erase n (a +ℤ pos 1) min_r max_r
      (on_radii clear_target (steps min_r max_r) min_r (mod_spokes b a) b)

-- How the walk around a blob ends: it is long enough, it is a single pixel, or it is short and has
-- these bounds.
pub data Walk : Type 0 where
  long : Walk
  single : Walk
  short : Contour → Walk

-- The direction in which the walk goes on. `found` is not reset in the loop, so that a turn that
-- finds nothing stops the walk in the first round only, and else leaves the index where it was.
abbrev pub next_index : Bool → ℕ → Option ℕ → Option ℕ
next_index first index (some i) = some i
next_index true index none = none
next_index false index none = some index

-- one round up to the step: `none` where the loop has ended, `some none` where it returns
abbrev pub round : Bool → HistoryBuffer → DopplerState → Polar → Polar → ℕ → Option (Option ℕ)
round first b d start current index =
    if same_place current start && not first
    then none
    else some (next_index first ((index + 3) % 4) (turn 4 ((index + 3) % 4) b d current))

-- `while current != start || count == 0`, on the rounds left before `count >= length`
unfoldable pub walk : ℕ → Bool → HistoryBuffer → DopplerState → Polar → Polar → ℕ → Contour → Walk
unfolding update_bounds
walk zero first b d start current index c = elim (round first b d start current index) [
  | none ↦ short c
  | some none ↦ single
  | some (some i) ↦ long
]
walk (suc n) first b d start current index c = elim (round first b d start current index) [
  | none ↦ short c
  | some none ↦ single
  | some (some i) ↦
      let next = add current (direction i) in walk n false b d start next i (update_bounds c next)
]

-- `multi_pix`
unfoldable pub multi_pix : HistoryBuffer → DopplerState → ℤ → ℤ → Bool × HistoryBuffer
unfolding walk erase open_side
multi_pix b d angle r =
    if not (pix b d angle r)
    then (false, b)
    else (let start : Polar = record { angle = angle; r = r; time = 0 } in
        elim (open_side 4 0 b d start) [
          | none ↦ (false, b)
          | some i ↦ elim (walk 6 true b d start start ((i + 1) % 4) (start_contour start)) [
            | long ↦ (true, b)
            | single ↦ (false, b)
            | short c ↦ (false, erase (steps c.min_angle c.max_angle) c.min_angle c.min_r c.max_r b)
          ]
        ])

-- `while limit >= 0 && self.pix(...)`, on `limit + 1`
unfoldable pub slide : ℕ → HistoryBuffer → DopplerState → ℤ → ℤ → ℤ
slide zero b d angle r = angle
slide (suc n) b d angle r =
    let rest = slide n b d (angle -ℤ pos 1) r in if pix b d angle r then rest else angle

-- `find_contour_from_inside`, with the point after it
unfoldable pub find_contour_from_inside :
    HistoryBuffer → DopplerState → Polar → Bool × Polar × HistoryBuffer
unfolding slide multi_pix
find_contour_from_inside b d p =
    if not (pix b d p.angle p.r)
    then (false, p, b)
    else (let angle = slide (b.spokes_per_revolution / 8 + 1) b d p.angle p.r +ℤ pos 1 in
        let (found, b') = multi_pix b d angle p.r in (found, record p { angle = angle }, b'))

-- What a search has come to: whether it has found a blob, the point, and the buffer.
pub record Search : Type 0 where
  pub found : Bool
  pub at_point : Polar
  pub buffer : HistoryBuffer

-- `if self.pix2(...) { return true; }`, at an angle and a radius
unfoldable pub search_at : DopplerState → Search → ℤ × ℤ → Search
unfolding multi_pix
search_at d s (a, r) = elim s.found [
  | true ↦ s
  | false ↦
      let (found, b') = multi_pix s.buffer d a r in
      record {
        found = found;
        at_point = if found then record (s.at_point) { angle = a; r = r } else s.at_point;
        buffer = b';
      }
]

unfoldable pub search_all : DopplerState → Search → List (ℤ × ℤ) → Search
search_all d s [] = s
search_all d s (p ∷ ps) = search_all d (search_at d s p) ps

-- `for i in ...` over the two points of one side, `n` of them from `i` on
abbrev pub side_points : (ℤ → ℤ × ℤ) → ℕ → ℕ → List (ℤ × ℤ)
side_points point zero i = []
side_points point (suc n) i = point (pos 0 -ℤ pos i) ∷ point (pos i) ∷ side_points point n (i + 1)

-- the four sides of the square at the distances `j` and `dist_a`, in the source's order; on the
-- right and the left side the larger radius comes first
abbrev pub square : ℤ → ℤ → ℕ → ℕ → List (ℤ × ℤ)
square a r j dist_a =
    side_points (λ i. (a +ℤ i, r +ℤ pos j)) (dist_a + 1) 0
    ++ (side_points (λ i. (a +ℤ pos dist_a, r -ℤ i)) j 0
        ++ (side_points (λ i. (a +ℤ i, r -ℤ pos j)) (dist_a + 1) 0
            ++ side_points (λ i. (a -ℤ pos dist_a, r -ℤ i)) j 0))

-- `for j in 1..=distance`, `n` of them from `j` on; `spread r j` is the product of f64
-- `(factor / r * j).max(1.0) as i32`.
unfoldable pub search_squares : (ℤ → ℕ → ℕ) → DopplerState → ℕ → ℕ → ℤ → ℤ → Search → Search
unfolding search_all
search_squares spread d zero j a r s = s
search_squares spread d (suc n) j a r s =
    search_squares spread d n (j + 1) a r (search_all d s (square a r j (spread r j)))

-- `find_nearest_contour`
unfoldable pub find_nearest_contour :
    (ℤ → ℕ → ℕ) → HistoryBuffer → DopplerState → Polar → ℤ → Search
unfolding search_squares
find_nearest_contour spread b d p dist =
    search_squares spread d (max 2 (pos_part dist)) 1 p.angle p.r
      (record { found = false; at_point = p; buffer = b })

-- `dist.min(pol.r - 5)`
abbrev pub min_ℤ : ℤ → ℤ → ℤ
min_ℤ a b = if ltb_ℤ b a then b else a

-- the search of `get_target`
unfoldable pub target_search : (ℤ → ℕ → ℕ) → HistoryBuffer → DopplerState → Polar → ℤ → Search
unfolding find_contour_from_inside find_nearest_contour
target_search spread b d p dist =
    if pix b d p.angle p.r
    then (let (found, p', b') = find_contour_from_inside b d p in
        record { found = found; at_point = p'; buffer = b' })
    else find_nearest_contour spread b d p (min_ℤ dist (p.r -ℤ pos 5))

-- what `get_target` makes of it
abbrev pub conclude_target : DopplerState → Search → ContourResult (Contour × Polar) × HistoryBuffer
conclude_target d s =
    if s.found
    then (get_contour s.buffer d s.at_point, s.buffer)
    else (err no_contour_found, s.buffer)

-- `get_target`, with the buffer after it
unfoldable pub get_target :
    (ℤ → ℕ → ℕ)
    → HistoryBuffer
    → DopplerState
    → Polar
    → ℤ
    → ContourResult (Contour × Polar) × HistoryBuffer
unfolding target_search
get_target spread b d p dist = conclude_target d (target_search spread b d p dist)
