-- ===== src/Ranges/Detection/Progress.antt =====
-- The course of a range detection: which range is tried at each report, when it is complete, and
-- what it has found then.
use mayara.Prelude.{
  ℕ, zero, suc, ◌+◌, ◌≤◌, ◌<◌, ◌≡◌, refl, ap, ◌∙◌, inl, inr, true, false, ◌||◌, List, [], ◌∷◌,
  arith, All, Bool-cases, length, get_elem?, drop, Option, some, none,
}
use mayara.Prelude.Int.{leb_ℤ, ℤ, ltb_ℤ}
use mayara.Ranges.{Range, Ranges, initial, is_marked, new, mark, insert_range, sort_ranges}
use mayara.Ranges.Detection.{
  RangeDetection, RangeDetectionResult, complete, next_range, in_range, candidates, new_detection,
  next_unmarked, advance_to_next_index, record_range, conclude, found_range,
}

abbrev pub Unmarked : Range → Type 0
Unmarked r = r.index ≡ 0

candidates-Unmarked : (lo hi : ℤ) (rs : List ℤ) → All Unmarked (candidates lo hi rs)
unfolding initial
candidates-Unmarked lo hi [] = tt
candidates-Unmarked lo hi (r ∷ rs) = elim (Bool-cases (in_range lo hi r)) [
  | inl fits ↦ rw fits (refl, candidates-Unmarked lo hi rs)
  | inr out ↦ rw out (candidates-Unmarked lo hi rs)
]

insert-Unmarked :
    (r : Range) (rs : List Range) → Unmarked r → All Unmarked rs → All Unmarked (insert_range r rs)
unfolding insert_range
insert-Unmarked r [] h hs = (h, tt)
insert-Unmarked r (x ∷ xs) h hs = elim (Bool-cases (leb_ℤ r.distance x.distance)) [
  | inl before ↦ rw before (h, hs)
  | inr behind ↦ rw behind (hs.0, insert-Unmarked r xs h hs.1)
]

sort-Unmarked : (rs : List Range) → All Unmarked rs → All Unmarked (sort_ranges rs)
unfolding sort_ranges
sort-Unmarked [] h = tt
sort-Unmarked (r ∷ rs) h = insert-Unmarked r (sort_ranges rs) h.0 (sort-Unmarked rs h.1)

-- the range at a place of an unmarked table, and the place behind it
abbrev step_of : ℕ → Option Range → Option Range × ℕ
step_of i none = (none, i)
step_of i (some r) = (some r, i + 1)

next_unmarked_lem :
    (i k : ℕ) (rs : List Range)
    → All Unmarked rs
    → next_unmarked i (drop k rs) ≡ step_of i (get_elem? rs k)
unfolding next_unmarked
next_unmarked_lem i zero [] h = refl
next_unmarked_lem i zero (r ∷ rs) h =
    let fresh : is_marked r ≡ false = ground (arith, h.0) in rw fresh
next_unmarked_lem i (suc k) [] h = refl
next_unmarked_lem i (suc k) (r ∷ rs) h = next_unmarked_lem i k rs h.1

-- A detection that has been through `n` reports of the table `t`.
pub record IsAt (lo hi : ℤ) (t : List Range) (n : ℕ) (d : RangeDetection) : Type 0 where
  pub low : d.min_range ≡ lo
  pub high : d.max_range ≡ hi
  pub table : d.ranges_to_try.all ≡ t
  pub ordered : d.ranges_to_try.ordered ≡ true
  pub fresh : All Unmarked t
  pub place : d.index_to_try ≡ n

new_detection-IsAt :
    (all : List ℤ) (lo hi : ℤ)
    → IsAt lo hi (sort_ranges (candidates lo hi all)) 0 (new_detection all lo hi)
unfolding new_detection
new_detection-IsAt all lo hi = record {
  low = refl;
  high = refl;
  table = refl;
  ordered = refl;
  fresh = sort-Unmarked (candidates lo hi all) (candidates-Unmarked lo hi all);
  place = refl;
}

-- The range that a report is answered with, if there is one left to try.
abbrev pub Answer : Option Range → RangeDetectionResult → Type 0
Answer (some r) result = result ≡ next_range r.distance
Answer none result = (ranges : Ranges) × (saved : ℤ) × (result ≡ complete ranges saved)

abbrev place_behind : ℕ → Option Range → ℕ
place_behind n none = n
place_behind n (some r) = n + 1

in_range→tests : (lo hi r : ℤ) → in_range lo hi r ≡ true → (ltb_ℤ r lo || ltb_ℤ hi r) ≡ false
in_range→tests lo hi r h = ground arith

mark_ordered : (rs : Ranges) (range : Range) → rs.ordered ≡ true → mark rs range ≡ (rs, false)
unfolding mark
mark_ordered rs range h = ground arith

module _ (lo hi : ℤ) (t : List Range) (n : ℕ) (d : RangeDetection) (v : IsAt lo hi t n d) where
  -- the table is ordered, so nothing in it is marked
  record_range-IsAt : (r : ℤ) → IsAt lo hi t n (record_range d r)
  unfolding record_range
  record_range-IsAt r = record {
    low = v.low;
    high = v.high;
    table = rw (mark_ordered d.ranges_to_try (initial r) v.ordered) v.table;
    ordered = rw (mark_ordered d.ranges_to_try (initial r) v.ordered) v.ordered;
    fresh = v.fresh;
    place = v.place;
  }

  advance_found :
      next_unmarked d.index_to_try (drop d.index_to_try d.ranges_to_try.all)
      ≡ step_of n (get_elem? t n)
  advance_found =
      next_unmarked_lem d.index_to_try d.index_to_try d.ranges_to_try.all (rw v.table v.fresh)
      ∙ λ i. step_of (v.place i) (get_elem? (v.table i) (v.place i))

  advance_lem :
      ((advance_to_next_index d).0 ≡ get_elem? t n)
      × IsAt lo hi t (place_behind n (get_elem? t n)) ((advance_to_next_index d).1)
  unfolding advance_to_next_index
  advance_lem = (
    ap (λ (p : Option Range × ℕ). p.0) advance_found ∙ step_of_found (get_elem? t n),
    record {
      low = v.low;
      high = v.high;
      table = v.table;
      ordered = v.ordered;
      fresh = v.fresh;
      place = ap (λ (p : Option Range × ℕ). p.1) advance_found ∙ step_of_place (get_elem? t n);
    },
  )
    where
      step_of_found : (o : Option Range) → (step_of n o).0 ≡ o
      step_of_found none = refl
      step_of_found (some r) = refl

      step_of_place : (o : Option Range) → (step_of n o).1 ≡ place_behind n o
      step_of_place none = refl
      step_of_place (some r) = refl

conclude_lem :
    (lo hi : ℤ) (t : List Range) (n : ℕ) (o : Option Range) (d : RangeDetection)
    → IsAt lo hi t n d
    → Answer o ((conclude o d).0) × IsAt lo hi t n ((conclude o d).1)
unfolding conclude
conclude_lem lo hi t n (some r) d v = (refl, v)
conclude_lem lo hi t n none d v = (
  (new d.ranges.all, d.saved_range, refl),
  record {
    low = v.low;
    high = v.high;
    table = v.table;
    ordered = v.ordered;
    fresh = v.fresh;
    place = v.place;
  },
)

report_lem :
    (lo hi r : ℤ) (t : List Range) (n : ℕ) (d : RangeDetection)
    → in_range lo hi r ≡ true
    → IsAt lo hi t n d
    → Answer (get_elem? t n) ((found_range d r).0)
      × IsAt lo hi t (place_behind n (get_elem? t n)) ((found_range d r).1)
unfolding found_range
report_lem lo hi r t n d fits v =
    let inside : (ltb_ℤ r d.min_range || ltb_ℤ d.max_range r) ≡ false =
      (λ i. ltb_ℤ r (v.low i) || ltb_ℤ (v.high i) r) ∙ in_range→tests lo hi r fits in
    let (found, at) =
      advance_lem lo hi t n (record_range d r) (record_range-IsAt lo hi t n d v r) in
    rw (inside, found) (conclude_lem lo hi t (place_behind n (get_elem? t n)) (get_elem? t n) _ at)

-- The detection after a list of reports.
unfoldable pub detect : RangeDetection → List ℤ → RangeDetection
detect d [] = d
detect d (r ∷ rs) = detect ((found_range d r).1) rs

get_elem?-some : (t : List Range) (n : ℕ) → n < length t → (r : Range) × (get_elem? t n ≡ some r)
get_elem?-some [] n h = absurd (omega arith)
get_elem?-some (r ∷ t) zero h = (r, refl)
get_elem?-some (r ∷ t) (suc n) h = get_elem?-some t n (omega arith)

get_elem?-none : (t : List Range) → get_elem? t (length t) ≡ none
get_elem?-none [] = refl
get_elem?-none (r ∷ t) = get_elem?-none t

detect-IsAt :
    (lo hi : ℤ) (t : List Range) (n : ℕ) (d : RangeDetection) (rs : List ℤ)
    → IsAt lo hi t n d
    → All (λ r. in_range lo hi r ≡ true) rs
    → n + length rs ≤ length t
    → IsAt lo hi t (n + length rs) (detect d rs)
unfolding detect
detect-IsAt lo hi t n d [] v h le = let e : n + 0 ≡ n = omega arith in rw e v
detect-IsAt lo hi t n d (r ∷ rs) v h le =
    let (x, found) = get_elem?-some t n (omega arith) in
    let at : IsAt lo hi t (n + 1) ((found_range d r).1) =
      rw found at ((report_lem lo hi r t n d h.0 v).1) in
    let e : n + suc (length rs) ≡ n + 1 + length rs = omega arith in
    rw e (detect-IsAt lo hi t (n + 1) ((found_range d r).1) rs at h.1 (omega arith))

-- The candidates of a detection, in the order in which they are tried.
abbrev pub tries : List ℤ → ℤ → ℤ → List Range
tries all lo hi = sort_ranges (candidates lo hi all)

-- After k reports within the limits, any other such report is answered with candidate number k (of
-- the sorted ones, from 0), whatever was reported; if there are only k candidates it is answered
-- with the complete result.
pub detection_answers :
    (all : List ℤ) (lo hi r : ℤ) (rs : List ℤ)
    → All (λ x. in_range lo hi x ≡ true) rs
    → in_range lo hi r ≡ true
    → length rs ≤ length (tries all lo hi)
    → Answer
        (get_elem? (tries all lo hi) (length rs))
        ((found_range (detect (new_detection all lo hi) rs) r).0)
detection_answers all lo hi r rs h fits le =
    let e : 0 + length rs ≡ length rs = omega arith in
    let at =
      detect-IsAt lo hi (tries all lo hi) 0 (new_detection all lo hi) rs
        (new_detection-IsAt all lo hi) h (omega arith) in
    (report_lem lo hi r (tries all lo hi) (length rs) _ fits (rw e at at)).0
