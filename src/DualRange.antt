-- ===== src/DualRange.antt =====
-- The dual-range controller, mayara-core/src/dual_range.rs.
mod Tests
pub mod Closest
use mayara.Prelude.{
  ℕ, ◌+◌, ◌-◌, Bool, true, false, List, [], ◌∷◌, Option, none, some, if◌then◌else◌, ltb, leb,
}

pub record DualRangeConfig : Type 0 where
  pub enabled : Bool
  pub secondary_range : ℕ  -- u32

pub record DualRangeState : Type 0 where
  pub enabled : Bool
  pub primary_range : ℕ  -- u32
  pub secondary_range : ℕ  -- u32
  pub max_secondary_range : ℕ  -- u32

-- `DualRangeState::default`
abbrev pub default_state : DualRangeState
default_state = record {
  enabled = false;
  primary_range = 1852;
  secondary_range = 926;
  max_secondary_range = 22224;
}

pub record DualRangeController : Type 0 where
  pub state : DualRangeState
  pub available_ranges : List ℕ

-- the ranges up to the limit
unfoldable pub within_limit : ℕ → List ℕ → List ℕ
within_limit limit [] = []
within_limit limit (r ∷ rs) =
    let rest = within_limit limit rs in if leb r limit then r ∷ rest else rest

-- `DualRangeController::new`
unfoldable pub new : ℕ → List ℕ → DualRangeController
new max_secondary_range available_ranges = record {
  state = record default_state { max_secondary_range = max_secondary_range };
  available_ranges = within_limit max_secondary_range available_ranges;
}

unfoldable pub set_enabled : DualRangeController → Bool → DualRangeController
set_enabled c enabled = record c { state = record (c.state) { enabled = enabled } }

unfoldable pub set_primary_range : DualRangeController → ℕ → DualRangeController
set_primary_range c range = record c { state = record (c.state) { primary_range = range } }

unfoldable pub set_secondary_range : DualRangeController → ℕ → DualRangeController × Bool
set_secondary_range c range =
    if ltb c.state.max_secondary_range range
    then (c, false)
    else (record c { state = record (c.state) { secondary_range = range } }, true)

-- A zero in the configuration keeps the secondary range; `enabled` is taken even where the range
-- is refused.
unfoldable pub apply_config : DualRangeController → DualRangeConfig → DualRangeController × Bool
apply_config c config =
    let c' = record c { state = record (c.state) { enabled = config.enabled } } in
    if ltb 0 config.secondary_range
    then (if ltb c.state.max_secondary_range config.secondary_range then (c', false) else (
      record c' { state = record (c'.state) { secondary_range = config.secondary_range } },
      true,
    ))
    else (c', true)

-- |a - b| of two u32, as i64
abbrev pub abs_diff : ℕ → ℕ → ℕ
abs_diff a b = (a - b) + (b - a)

-- `min_by_key` over the rest, with the best so far: the first of equal keys is kept.
unfoldable pub min_by_distance : ℕ → ℕ → List ℕ → ℕ
min_by_distance target best [] = best
min_by_distance target best (r ∷ rs) =
    min_by_distance target (if ltb (abs_diff r target) (abs_diff best target) then r else best) rs

unfoldable pub find_closest_range : DualRangeController → ℕ → ℕ
unfolding min_by_distance
find_closest_range c target = elim c.available_ranges [
  | [] ↦ c.state.secondary_range
  | r ∷ rs ↦ min_by_distance target r rs
]
