-- ===== src/Ranges/Detection/Found.antt =====
-- The ranges that a detection keeps.
use mayara.Prelude.{
  ◌≡◌, refl, sym, ap, ◌∙◌, inl, inr, Bool, true, false, ◌&&◌, ◌||◌, not, List, [], ◌∷◌, ◌++◌, arith,
  Bool-cases, Option, some, none,
}
use mayara.Prelude.Int.{eq_ℤ, eq_ℤ-sound, leb_ℤ, ℤ, ltb_ℤ}
use mayara.Ranges.{Range, Ranges, initial, new, push, has_distance, insert_range, sort_ranges}
use mayara.Ranges.Detection.{
  RangeDetection, in_range, new_detection, advance_to_next_index, record_range, conclude,
  found_range,
}
use mayara.Ranges.Detection.Progress.{detect}

has-insert :
    (v : ℤ) (r : Range) (rs : List Range)
    → has_distance v (insert_range r rs) ≡ (eq_ℤ r.distance v || has_distance v rs)
unfolding insert_range
has-insert v r [] = refl
has-insert v r (x ∷ xs) = elim (Bool-cases (leb_ℤ r.distance x.distance)) [
  | inl before ↦ rw before
  | inr behind ↦
      rw (behind, has-insert v r xs)
        (swap_or (eq_ℤ x.distance v) (eq_ℤ r.distance v) (has_distance v xs))
]
  where
    swap_or : (a b c : Bool) → (a || (b || c)) ≡ (b || (a || c))
    swap_or true true c = refl
    swap_or true false c = refl
    swap_or false b c = refl

has-sort : (v : ℤ) (rs : List Range) → has_distance v (sort_ranges rs) ≡ has_distance v rs
unfolding sort_ranges
has-sort v [] = refl
has-sort v (r ∷ rs) =
    has-insert v r (sort_ranges rs) ∙ ap (λ b. eq_ℤ r.distance v || b) (has-sort v rs)

or_false : (b : Bool) → (b || false) ≡ b
or_false true = refl
or_false false = refl

has-snoc :
    (v : ℤ) (rs : List Range) (r : Range)
    → has_distance v (rs ++ (r ∷ [])) ≡ (has_distance v rs || eq_ℤ r.distance v)
has-snoc v [] r = or_false (eq_ℤ r.distance v)
has-snoc v (x ∷ xs) r = rw (has-snoc v xs r) (or_assoc (eq_ℤ x.distance v) _ _)
  where
    or_assoc : (a b c : Bool) → (a || (b || c)) ≡ ((a || b) || c)
    or_assoc true b c = refl
    or_assoc false b c = refl

-- A range that is there already is found under its distance.
known :
    (v d : ℤ) (rs : List Range)
    → has_distance d rs ≡ true
    → has_distance v rs ≡ (has_distance v rs || eq_ℤ d v)
known v d rs h = elim (Bool-cases (eq_ℤ d v)) [
  | inl same ↦ let here : has_distance v rs ≡ true = rw (← eq_ℤ-sound d v same) h in rw here
  | inr other ↦ rw other (sym (or_false (has_distance v rs)))
]

push_old :
    (rs : Ranges) (r : Range) → has_distance r.distance rs.all ≡ true → (push rs r).0.all ≡ rs.all
unfolding push
push_old rs r h = simp h

push_new :
    (rs : Ranges) (r : Range)
    → has_distance r.distance rs.all ≡ false
    → (push rs r).0.all ≡ rs.all ++ (r ∷ [])
unfolding push
push_new rs r h = ground arith

has-push :
    (v : ℤ) (rs : Ranges) (r : Range)
    → has_distance v ((push rs r).0.all) ≡ (has_distance v rs.all || eq_ℤ r.distance v)
has-push v rs r = elim (Bool-cases (has_distance r.distance rs.all)) [
  | inl old ↦ ap (has_distance v) (push_old rs r old) ∙ known v r.distance rs.all old
  | inr fresh ↦ ap (has_distance v) (push_new rs r fresh) ∙ has-snoc v rs.all r
]

-- The distances that a detection has kept.
abbrev pub holds : ℤ → RangeDetection → Bool
holds v d = has_distance v d.ranges.all

holds-conclude :
    (v : ℤ) (o : Option Range) (d : RangeDetection) → holds v ((conclude o d).1) ≡ holds v d
unfolding conclude new
holds-conclude v none d = has-sort v d.ranges.all
holds-conclude v (some r) d = refl

holds-advance : (v : ℤ) (d : RangeDetection) → holds v ((advance_to_next_index d).1) ≡ holds v d
unfolding advance_to_next_index
holds-advance v d = refl

holds-record : (v r : ℤ) (d : RangeDetection) → holds v (record_range d r) ≡ (holds v d || eq_ℤ r v)
unfolding record_range
holds-record v r d = has-push v d.ranges (initial r)

limits_kept :
    (d : RangeDetection) (o : Option Range)
    → ((conclude o d).1.min_range ≡ d.min_range) × ((conclude o d).1.max_range ≡ d.max_range)
unfolding conclude
limits_kept d none = (refl, refl)
limits_kept d (some r) = (refl, refl)

tests_of_limits : (lo hi r : ℤ) → (ltb_ℤ r lo || ltb_ℤ hi r) ≡ not (in_range lo hi r)
tests_of_limits lo hi r = ground arith

-- one report
holds-found :
    (v r : ℤ) (d : RangeDetection)
    → holds v ((found_range d r).1)
      ≡ (holds v d || (in_range d.min_range d.max_range r && eq_ℤ r v))
unfolding found_range
holds-found v r d = elim (Bool-cases (in_range d.min_range d.max_range r)) [
  | inl inside ↦
      rw (tests_of_limits d.min_range d.max_range r, inside)
        (holds-conclude v _ ((advance_to_next_index (record_range d r)).1)
          ∙ holds-advance v (record_range d r)
          ∙ holds-record v r d)
  | inr outside ↦
      rw (tests_of_limits d.min_range d.max_range r, outside) (sym (or_false (holds v d)))
]

limits-found :
    (r : ℤ) (d : RangeDetection)
    → ((found_range d r).1.min_range ≡ d.min_range) × ((found_range d r).1.max_range ≡ d.max_range)
unfolding found_range advance_to_next_index record_range
limits-found r d = elim (Bool-cases (in_range d.min_range d.max_range r)) [
  | inl inside ↦
      rw (tests_of_limits d.min_range d.max_range r, inside)
        (limits_kept ((advance_to_next_index (record_range d r)).1) _)
  | inr outside ↦ rw (tests_of_limits d.min_range d.max_range r, outside) (refl, refl)
]

-- It was reported, within the limits.
abbrev pub reported : ℤ → ℤ → ℤ → List ℤ → Bool
reported lo hi v [] = false
reported lo hi v (r ∷ rs) = (in_range lo hi r && eq_ℤ r v) || reported lo hi v rs

or_assoc : (a b c : Bool) → ((a || b) || c) ≡ (a || (b || c))
or_assoc true b c = refl
or_assoc false b c = refl

detect_lem :
    (v lo hi : ℤ) (d : RangeDetection) (rs : List ℤ)
    → d.min_range ≡ lo
    → d.max_range ≡ hi
    → holds v (detect d rs) ≡ (holds v d || reported lo hi v rs)
unfolding detect
detect_lem v lo hi d [] el eh = sym (or_false (holds v d))
detect_lem v lo hi d (r ∷ rs) el eh =
    let (kl, kh) = limits-found r d in
    detect_lem v lo hi ((found_range d r).1) rs (kl ∙ el) (kh ∙ eh)
    ∙ ap (λ b. b || reported lo hi v rs)
        (holds-found v r d ∙ λ i. holds v d || (in_range (el i) (eh i) r && eq_ℤ r v))
    ∙ or_assoc (holds v d) (in_range lo hi r && eq_ℤ r v) (reported lo hi v rs)

-- After any reports, within the limits or not, a distance is among the ranges found exactly if it
-- was reported and is within the limits.
pub detection_finds :
    (all : List ℤ) (lo hi v : ℤ) (rs : List ℤ)
    → holds v (detect (new_detection all lo hi) rs) ≡ reported lo hi v rs
unfolding new_detection
detection_finds all lo hi v rs = detect_lem v lo hi (new_detection all lo hi) rs refl refl
