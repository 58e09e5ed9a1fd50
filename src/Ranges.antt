-- ===== src/Ranges.antt =====
-- Range tables and range detection, mayara-server/src/radar/range.rs.
mod Tests
pub mod Sorting
pub mod Tables
pub mod Lookup
pub mod Detection
use mayara.Prelude.{
  ℕ, zero, suc, ◌+◌, ◌-◌, ◌%◌, Bool, true, false, ◌&&◌, ◌||◌, not, List, [], ◌∷◌, ◌++◌, Option,
  none, some, if◌then◌else◌, ltb, leb, ◌==◌, length, get_elem?, map,
}
use mayara.Prelude.Int.{eq_ℤ, leb_ℤ, ℤ, pos, negsuc, ltb_ℤ}

-- `i32` distances are integers; the index is a `usize`.
pub record Range : Type 0 where
  pub distance : ℤ
  pub index : ℕ

-- `Range::initial`
unfoldable pub initial : ℤ → Range
initial value = record { distance = value; index = 0 }

-- `Range::new`
abbrev pub new_range : ℤ → ℕ → Range
new_range value index = record { distance = value; index = index }

-- `near`, at a divisor of at least 2. The remainder has the sign of the dividend, so that of a
-- negative number is 0 or none of the three.
unfoldable pub near : ℤ → ℕ → Bool
near (pos a) b = (a % b == 0) || (a % b == 1) || (a % b == b - 1)
near (negsuc a) b = suc a % b == 0

unfoldable pub metric : ℤ → Bool
unfolding near
metric v =
    if leb_ℤ v (pos 100) then near v 25 else (if leb_ℤ v (pos 750) then near v 50 else near v 500)

unfoldable pub is_metric : Range → Bool
unfolding metric
is_metric r = metric r.distance

unfoldable pub is_nautical : Range → Bool
unfolding metric
is_nautical r = not (metric r.distance)

-- `Range::mark` and `Range::is_marked`
abbrev pub mark_range : Range → Range
mark_range r = record r { index = 1 }

abbrev pub is_marked : Range → Bool
is_marked r = ltb 0 r.index

pub record Ranges : Type 0 where
  pub all : List Range
  pub metric_ranges : List Range
  pub nautical_ranges : List Range
  pub ordered : Bool

-- `sort_by` on the distances, which is stable.
unfoldable pub insert_range : Range → List Range → List Range
insert_range r [] = r ∷ []
insert_range r (x ∷ xs) =
    let rest = insert_range r xs in if leb_ℤ r.distance x.distance then r ∷ x ∷ xs else x ∷ rest

unfoldable pub sort_ranges : List Range → List Range
unfolding insert_range
sort_ranges [] = []
sort_ranges (r ∷ rs) = insert_range r (sort_ranges rs)

-- The loop of `Ranges::new`: the metric ones (or the others) of the list with their places, from
-- place `i` on.
unfoldable pub with_places : (ℤ → Bool) → ℕ → List Range → List Range
with_places wanted i [] = []
with_places wanted i (r ∷ rs) =
    let rest = with_places wanted (i + 1) rs in
    if wanted r.distance then new_range r.distance i ∷ rest else rest

-- `Ranges::new`
unfoldable pub new : List Range → Ranges
unfolding sort_ranges with_places
new ranges =
    let sorted = sort_ranges ranges in
    record {
      all = sorted;
      metric_ranges = with_places metric 0 sorted;
      nautical_ranges = with_places (λ v. not (metric v)) 0 sorted;
      ordered = true;
    }

-- `Ranges::empty`
unfoldable pub empty : Ranges
empty = record { all = []; metric_ranges = []; nautical_ranges = []; ordered = false }

abbrev pub number_from : ℕ → List ℤ → List Range
number_from i [] = []
number_from i (v ∷ vs) = new_range v i ∷ number_from (i + 1) vs

-- `Ranges::new_by_distance`
unfoldable pub new_by_distance : List ℤ → Ranges
unfolding new
new_by_distance values = new (number_from 0 values)

-- `iter().any(|r| r.distance == d)`
abbrev pub has_distance : ℤ → List Range → Bool
has_distance d [] = false
has_distance d (r ∷ rs) = eq_ℤ r.distance d || has_distance d rs

-- `Ranges::push`
unfoldable pub push : Ranges → Range → Ranges × Bool
push rs range =
    if has_distance range.distance rs.all
    then (rs, false)
    else (let index = length rs.all in
        let rs' = record rs { all = rs.all ++ (range ∷ []) } in
        let placed = new_range range.distance index in
        (
          if metric range.distance
              then record rs' { metric_ranges = rs.metric_ranges ++ (placed ∷ []) }
              else record rs' { nautical_ranges = rs.nautical_ranges ++ (placed ∷ []) },
          true,
        ))

-- the first range at this distance is marked
unfoldable pub mark_first : ℤ → List Range → List Range
mark_first d [] = []
mark_first d (r ∷ rs) =
    let rest = mark_first d rs in if eq_ℤ r.distance d then mark_range r ∷ rs else r ∷ rest

-- `Ranges::mark`
unfoldable pub mark : Ranges → Range → Ranges × Bool
unfolding mark_first
mark rs range =
    if rs.ordered
    then (rs, false)
    else (if has_distance range.distance rs.all
        then (record rs { all = mark_first range.distance rs.all }, true)
        else (rs, false))

unfoldable pub get_distance : Ranges → ℕ → ℤ
get_distance rs index = elim (get_elem? rs.all index) [ some r ↦ r.distance | none ↦ pos 0 ]

-- `iter().enumerate()` with an early return, from place `i` on
unfoldable pub first_place : (Range → Bool) → ℕ → List Range → Option ℕ
first_place test i [] = none
first_place test i (r ∷ rs) =
    let rest = first_place test (i + 1) rs in if test r then some i else rest

-- the early returns of `distance_to_index`: the exact place, else the first larger, else the last
abbrev pub choose_place : Option ℕ → Option ℕ → ℕ → ℕ
choose_place (some i) larger len = i
choose_place none (some i) len = i
choose_place none none len = len - 1

-- `Ranges::distance_to_index`; the index fits an i32.
unfoldable pub distance_to_index : Ranges → ℤ → ℕ
distance_to_index rs distance =
    choose_place (first_place (λ r. eq_ℤ r.distance distance) 0 rs.all)
      (first_place (λ r. leb_ℤ distance r.distance) 0 rs.all) (length rs.all)
