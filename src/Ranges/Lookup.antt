-- ===== src/Ranges/Lookup.antt =====
-- `distance_to_index`: which range is chosen for a distance.
use mayara.Prelude.{
  ℕ, suc, ◌+◌, ◌<◌, ◌≡◌, ◌⊎◌, refl, ◌∙◌, inl, inr, Bool, true, false, List, [], ◌∷◌, arith,
  Bool-cases, Option, some, none, length, get_elem?, take, All,
}
use mayara.Prelude.Int.{eq_ℤ, eq_ℤ-sound, leb_ℤ, ℤ, ◌≤ℤ◌}
use mayara.Ranges.{Range, Ranges, first_place, choose_place, distance_to_index, get_distance}
use mayara.Ranges.Sorting.{leb_ℤ→le}

-- The first element that passes the test, at place `k`.
record FirstAt (test : Range → Bool) (rs : List Range) (k : ℕ) : Type 0 where
  target : Range
  found : get_elem? rs k ≡ some target
  passes : test target ≡ true
  before : All (λ r. test r ≡ false) (take k rs)
  inside : k < length rs

abbrev Search : (Range → Bool) → ℕ → List Range → Option ℕ → Type 0
Search test i rs none = All (λ r. test r ≡ false) rs
Search test i rs (some j) = (k : ℕ) × (j ≡ i + k) × FirstAt test rs k

FirstAt-cons :
    (test : Range → Bool) (r : Range) (rs : List Range) (k : ℕ)
    → test r ≡ false
    → FirstAt test rs k
    → FirstAt test (r ∷ rs) (suc k)
FirstAt-cons test r rs k h f = record {
  target = f.target;
  found = f.found;
  passes = f.passes;
  before = (h, f.before);
  inside = omega (arith, f.inside);
}

Search-cons :
    (test : Range → Bool) (i : ℕ) (r : Range) (rs : List Range) (o : Option ℕ)
    → test r ≡ false
    → Search test (i + 1) rs o
    → Search test i (r ∷ rs) o
Search-cons test i r rs none h s = (h, s)
Search-cons test i r rs (some j) h (k, e, f) = (suc k, omega arith, FirstAt-cons test r rs k h f)

first_place_lem :
    (test : Range → Bool) (i : ℕ) (rs : List Range) → Search test i rs (first_place test i rs)
unfolding first_place
first_place_lem test i [] = tt
first_place_lem test i (r ∷ rs) = elim (Bool-cases (test r)) [
  | inl here ↦ rw here (
    0,
    omega arith,
    record { target = r; found = refl; passes = here; before = tt; inside = omega arith },
  )
  | inr there ↦ rw there (Search-cons test i r rs _ there (first_place_lem test (i + 1) rs))
]

-- How the range at a place answers to a distance: it is that distance; or no range is, and it is
-- the first that is larger; or all are smaller, and it is the last.
abbrev pub Answers : Ranges → ℤ → ℕ → Type 0
Answers rs d i =
    (get_distance rs i ≡ d)
    ⊎ (All (λ r. eq_ℤ r.distance d ≡ false) rs.all
        × (d ≤ℤ get_distance rs i)
        × All (λ r. leb_ℤ d r.distance ≡ false) (take i rs.all))
    ⊎ (All (λ r. leb_ℤ d r.distance ≡ false) rs.all × (i + 1 ≡ length rs.all))

get_distance_lem :
    (rs : Ranges) (i : ℕ) (r : Range) → get_elem? rs.all i ≡ some r → get_distance rs i ≡ r.distance
unfolding get_distance
get_distance_lem rs i r e = rw (e, get_distance)

choose_place_lem :
    (rs : Ranges) (d : ℤ) (exact larger : Option ℕ)
    → 0 < length rs.all
    → Search (λ r. eq_ℤ r.distance d) 0 rs.all exact
    → Search (λ r. leb_ℤ d r.distance) 0 rs.all larger
    → (choose_place exact larger (length rs.all) < length rs.all)
      × Answers rs d (choose_place exact larger (length rs.all))
choose_place_lem rs d (some i) larger h (k, e, f) s =
    let at : i ≡ k = omega arith in
    rw at (
      f.inside,
      inl (get_distance_lem rs k f.target f.found ∙ eq_ℤ-sound f.target.distance d f.passes),
    )
choose_place_lem rs d none (some i) h no_exact (k, e, f) =
    let at : i ≡ k = omega arith in
    rw at (
      f.inside,
      inr (
          inl (
            no_exact,
            rw (get_distance_lem rs k f.target f.found) (leb_ℤ→le d f.target.distance f.passes),
            f.before,
          )),
    )
choose_place_lem rs d none none h no_exact none_larger =
    (omega arith, inr (inr (none_larger, omega arith)))

-- In a table that is not empty a distance gets a place of the table: that of a range that equals
-- it, else of the first larger one, else the last.
pub distance_to_index_lem :
    (rs : Ranges) (d : ℤ)
    → 0 < length rs.all
    → (distance_to_index rs d < length rs.all) × Answers rs d (distance_to_index rs d)
unfolding distance_to_index
distance_to_index_lem rs d h =
    choose_place_lem rs d _ _ h (first_place_lem (λ r. eq_ℤ r.distance d) 0 rs.all)
      (first_place_lem (λ r. leb_ℤ d r.distance) 0 rs.all)
