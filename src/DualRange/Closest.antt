-- ===== src/DualRange/Closest.antt =====
-- The limit on the secondary range, and the choice of the closest one.
use mayara.Prelude.{
  ℕ, ◌≤◌, ◌<◌, ◌≡◌, ◌⊎◌, inl, inr, refl, Bool, true, false, List, [], ◌∷◌, arith, ltb, leb, All,
  if◌then◌else◌, Bool-cases, leb→le, ltb→lt,
}
use mathlib.Core.List.{Memᴰ}
use mayara.DualRange.{
  DualRangeConfig, DualRangeController, new, set_enabled, set_primary_range, set_secondary_range,
  apply_config, abs_diff, min_by_distance, find_closest_range, within_limit,
}

-- The secondary range and all ranges that are offered are within the limit.
pub record IsWithin (c : DualRangeController) : Type 0 where
  pub secondary : c.state.secondary_range ≤ c.state.max_secondary_range
  pub offered : All (λ r. r ≤ c.state.max_secondary_range) c.available_ranges

pub data Request : Type 0 where
  enable : Bool → Request
  primary : ℕ → Request
  secondary : ℕ → Request
  config : DualRangeConfig → Request

unfoldable pub handle : DualRangeController → Request → DualRangeController
unfolding set_enabled set_primary_range set_secondary_range apply_config
handle c (enable b) = set_enabled c b
handle c (primary r) = set_primary_range c r
handle c (secondary r) = (set_secondary_range c r).0
handle c (config k) = (apply_config c k).0

unfoldable pub handle_all : DualRangeController → List Request → DualRangeController
handle_all c [] = c
handle_all c (q ∷ qs) = handle_all (handle c q) qs

within_limit-All : (limit : ℕ) (rs : List ℕ) → All (λ r. r ≤ limit) (within_limit limit rs)
unfolding within_limit
within_limit-All limit [] = tt
within_limit-All limit (r ∷ rs) = elim (Bool-cases (leb r limit)) [
  | inl small ↦ rw small (leb→le r limit small, within_limit-All limit rs)
  | inr large ↦ rw large (within_limit-All limit rs)
]

handle_keeps :
    (c : DualRangeController) (q : Request)
    → ((handle c q).available_ranges ≡ c.available_ranges)
      × ((handle c q).state.max_secondary_range ≡ c.state.max_secondary_range)
      × (c.state.secondary_range ≤ c.state.max_secondary_range
          → (handle c q).state.secondary_range ≤ c.state.max_secondary_range)
unfolding handle
handle_keeps c (enable b) = (refl, refl, λ h. h)
handle_keeps c (primary r) = (refl, refl, λ h. h)
handle_keeps c (secondary r) = (ground arith, ground arith, λ h. ground arith)
handle_keeps c (config k) = (ground arith, ground arith, λ h. ground arith)

handle-IsWithin : (c : DualRangeController) (q : Request) → IsWithin c → IsWithin (handle c q)
handle-IsWithin c q v =
    let (ranges, limit, range) = handle_keeps c q in
    record { secondary = rw limit (range v.secondary); offered = rw (ranges, limit) v.offered }

new-IsWithin : (limit : ℕ) (ranges : List ℕ) → 926 ≤ limit → IsWithin (new limit ranges)
unfolding new
new-IsWithin limit ranges h = record { secondary = h; offered = within_limit-All limit ranges }

run-IsWithin :
    (c : DualRangeController) (qs : List Request) → IsWithin c → IsWithin (handle_all c qs)
unfolding handle_all
run-IsWithin c [] v = v
run-IsWithin c (q ∷ qs) v = run-IsWithin (handle c q) qs (handle-IsWithin c q v)

-- From a controller whose limit is at least the default secondary range (926 m) on, no request
-- takes the secondary range past the limit, and no range past it is offered.
pub handle_all-IsWithin :
    (limit : ℕ) (ranges : List ℕ) (qs : List Request)
    → 926 ≤ limit
    → IsWithin (handle_all (new limit ranges) qs)
handle_all-IsWithin limit ranges qs h =
    run-IsWithin (new limit ranges) qs (new-IsWithin limit ranges h)

-- The range is refused exactly if it is past the limit, and then nothing changes but `enabled`.
apply_config_lem :
    (c : DualRangeController) (k : DualRangeConfig)
    → let (c', accepted) = apply_config c k in
      (c'.state.enabled ≡ k.enabled)
      × (c'.state.primary_range ≡ c.state.primary_range)
      × ((accepted ≡ true) × (k.secondary_range ≤ c.state.max_secondary_range)
          ⊎ (accepted ≡ false)
            × (c.state.max_secondary_range < k.secondary_range)
            × (c'.state.secondary_range ≡ c.state.secondary_range))
unfolding apply_config
apply_config_lem c k = ground arith

-- The value is in the list, and none in the list is nearer to the target.
abbrev pub Nearest : ℕ → List ℕ → ℕ → Type 0
Nearest target rs v = Memᴰ v rs × All (λ r. abs_diff v target ≤ abs_diff r target) rs

skip_second {ℓ} : {A : Type ℓ} {v a b : A} {l : List A} → Memᴰ v (a ∷ l) → Memᴰ v (a ∷ b ∷ l)
skip_second (Memᴰ.head e) = Memᴰ.head e
skip_second (Memᴰ.tail m) = Memᴰ.tail (Memᴰ.tail m)

-- The better of two, and then the rest.
Nearest-cons :
    (target best r v : ℕ) (rs : List ℕ)
    → Nearest target ((if ltb (abs_diff r target) (abs_diff best target) then r else best) ∷ rs) v
    → Nearest target (best ∷ r ∷ rs) v
Nearest-cons target best r v rs n =
    elim (Bool-cases (ltb (abs_diff r target) (abs_diff best target))) [
      | inl nearer ↦
          let (m, (le, les)) = rw nearer at n in
          (Memᴰ.tail m, (omega (arith, ltb→lt _ _ nearer), (le, les)))
      | inr farther ↦
          let (m, (le, les)) = rw farther at n in (skip_second m, (le, (ground arith, les)))
    ]

min_by_distance_lem :
    (target best : ℕ) (rs : List ℕ) → Nearest target (best ∷ rs) (min_by_distance target best rs)
unfolding min_by_distance
min_by_distance_lem target best [] = (Memᴰ.head refl, (omega arith, tt))
min_by_distance_lem target best (r ∷ rs) = Nearest-cons target best r _ rs (
    min_by_distance_lem target (if ltb (abs_diff r target) (abs_diff best target) then r else best)
      rs)

-- The closest range is one of those on offer, and none of them is nearer to the target; with none
-- on offer it is the secondary range in use.
pub find_closest_range_lem :
    (c : DualRangeController) (target : ℕ)
    → (c.available_ranges ≡ []) × (find_closest_range c target ≡ c.state.secondary_range)
      ⊎ Nearest target c.available_ranges (find_closest_range c target)
unfolding find_closest_range
find_closest_range_lem c target = go c.available_ranges refl
  where
    go :
        (rs : List ℕ)
        → c.available_ranges ≡ rs
        → (c.available_ranges ≡ []) × (find_closest_range c target ≡ c.state.secondary_range)
          ⊎ Nearest target c.available_ranges (find_closest_range c target)
    go [] e = inl (e, rw (e, find_closest_range))
    go (r ∷ rs) e = inr (rw (e, find_closest_range) (min_by_distance_lem target r rs))
