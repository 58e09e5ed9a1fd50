-- ===== src/Ranges/Tables.antt =====
-- The tables that `Ranges::new` makes.
use mayara.Prelude.{
  ℕ, ◌+◌, ◌≡◌, refl, inl, inr, Bool, true, List, [], ◌∷◌, ◌++◌, arith, not, All, Bool-cases, length,
  get_elem?, some, length-append,
}
use mathlib.Core.List.{append_assoc, Perm}
use mayara.Prelude.Int.{ℤ}
use mayara.Ranges.{Range, Ranges, metric, with_places, sort_ranges, new}
use mayara.Ranges.Sorting.{IsSorted, sort_ranges-IsSorted, sort_ranges-perm}

-- The entry names a range of the table by its place, and is of the wanted kind.
pub record Placed (wanted : ℤ → Bool) (all : List Range) (e : Range) : Type 0 where
  pub target : Range
  pub found : get_elem? all e.index ≡ some target
  pub same : target.distance ≡ e.distance
  pub kind : wanted e.distance ≡ true

get_elem?-append :
    (pre rs : List Range) (r : Range) → get_elem? (pre ++ (r ∷ rs)) (length pre) ≡ some r
get_elem?-append [] rs r = refl
get_elem?-append (x ∷ pre) rs r = get_elem?-append pre rs r

with_places-Placed :
    (wanted : ℤ → Bool) (pre rs : List Range) (i : ℕ)
    → i ≡ length pre
    → All (Placed wanted (pre ++ rs)) (with_places wanted i rs)
unfolding with_places
with_places-Placed wanted pre [] i e = tt
with_places-Placed wanted pre (r ∷ rs) i e =
    let rest : All (Placed wanted (pre ++ (r ∷ rs))) (with_places wanted (i + 1) rs) =
      rw (append_assoc pre (r ∷ []) rs) at (
        with_places-Placed wanted (pre ++ (r ∷ [])) rs (i + 1)
          (omega (arith, length-append pre (r ∷ [])))) in
    elim (Bool-cases (wanted r.distance)) [
      | inl yes' ↦ rw yes' (
        record { target = r; found = rw e (get_elem?-append pre rs r); same = refl; kind = yes' },
        rest,
      )
      | inr no' ↦ rw no' rest
    ]

with_places_count :
    (rs : List Range) (i : ℕ)
    → length (with_places metric i rs) + length (with_places (λ v. not (metric v)) i rs) ≡ length rs
unfolding with_places
with_places_count [] i = omega arith
with_places_count (r ∷ rs) i = elim (Bool-cases (metric r.distance)) [
  | inl m ↦ rw m (omega (arith, with_places_count rs (i + 1)))
  | inr n ↦ rw n (omega (arith, with_places_count rs (i + 1)))
]

-- Each of the two tables names ranges of the whole one, of its own unit, and together they have as
-- many entries.
pub record IsSplit (rs : Ranges) : Type 0 where
  pub metrics : All (Placed metric rs.all) rs.metric_ranges
  pub nauticals : All (Placed (λ v. not (metric v)) rs.all) rs.nautical_ranges
  pub count : length rs.metric_ranges + length rs.nautical_ranges ≡ length rs.all

-- The table of any ranges is sorted by distance and has the same ranges, each as often; and it is
-- split by unit, each entry with its place in the table.
pub new-IsSplit :
    (ranges : List Range)
    → IsSorted (new ranges).all × Perm (new ranges).all ranges × IsSplit (new ranges)
unfolding new
new-IsSplit ranges = (
  sort_ranges-IsSorted ranges,
  sort_ranges-perm ranges,
  record {
    metrics = with_places-Placed metric [] (sort_ranges ranges) 0 refl;
    nauticals = with_places-Placed (λ v. not (metric v)) [] (sort_ranges ranges) 0 refl;
    count = with_places_count (sort_ranges ranges) 0;
  },
)
