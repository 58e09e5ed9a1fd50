-- ===== src/Trails.antt =====
-- Target trails, mayara-core/src/trails/history.rs.
mod Tests
pub mod Capped
pub mod Stamps
pub mod Settings
pub mod Valid
pub mod Pruning
pub mod Adding
use mayara.Prelude.{
  ℕ, zero, suc, ◌+◌, ◌-◌, ◌*◌, ◌%◌, ◌^◌, Bool, true, false, ◌&&◌, not, List, [], ◌∷◌, ◌++◌, Option,
  none, some, map, if◌then◌else◌, ltb, leb, ◌==◌, length,
}
use mayara.Prelude.Dict.{Dict, lookup, insert, erase, map_values, retain}

-- The `f64` values are the words of their bits.
pub record TrailPoint : Type 0 where
  pub timestamp : ℕ  -- u64
  pub bearing : ℕ
  pub distance : ℕ
  pub latitude : Option ℕ
  pub longitude : Option ℕ

-- `True` of the source is `true_motion` here.
pub data TrailMode : Type 0 where
  relative true_motion : TrailMode

pub record TrailSettings : Type 0 where
  pub enabled : Bool
  pub mode : TrailMode
  pub duration_seconds : ℕ  -- u32
  pub max_points : ℕ
  pub min_interval_ms : ℕ  -- u64

-- `TrailSettings::default`
abbrev pub default_settings : TrailSettings
default_settings = record {
  enabled = true;
  mode = relative;
  duration_seconds = 300;
  max_points = 100;
  min_interval_ms = 3000;
}

pub record TargetTrail : Type 0 where
  pub points : List TrailPoint
  pub max_points : ℕ

-- the bytes of a `TrailPoint`: three words, and two options of a word
abbrev pub point_size : ℕ
point_size = 56

-- `TargetTrail::new`; none is the panic of `Vec::with_capacity` where the capacity is past `isize::MAX`
-- bytes
unfoldable pub new_trail : ℕ → Option TargetTrail
new_trail max_points =
    if ltb (max_points * point_size) (2 ^ 63)
    then some (record { points = []; max_points = max_points })
    else none

-- `Vec::remove(0)`, which panics on an empty vector
abbrev pub remove_first : List TrailPoint → Option (List TrailPoint)
remove_first [] = none
remove_first (p ∷ ps) = some ps

-- `points.push(point)` behind it
abbrev pub push : TargetTrail → TrailPoint → Option (List TrailPoint) → Option TargetTrail
push t point none = none
push t point (some ps) = some (record t { points = ps ++ (point ∷ []) })

-- `TargetTrail::add_point`; none is the panic
unfoldable pub trail_add_point : TargetTrail → TrailPoint → Option TargetTrail
trail_add_point t point =
    let kept =
      if leb t.max_points (length t.points) then remove_first t.points else some t.points in
    push t point kept

-- `TargetTrail::prune_old`
unfoldable pub prune_points : ℕ → List TrailPoint → List TrailPoint
prune_points min_timestamp [] = []
prune_points min_timestamp (p ∷ ps) =
    let rest = prune_points min_timestamp ps in
    if leb min_timestamp p.timestamp then p ∷ rest else rest

abbrev pub prune_old : ℕ → TargetTrail → TargetTrail
prune_old min_timestamp t = record t { points = prune_points min_timestamp t.points }

pub record TrailStore : Type 0 where
  pub settings : TrailSettings
  pub trails : Dict TargetTrail
  pub last_update : Dict ℕ

unfoldable pub new : TrailSettings → TrailStore
new settings = record { settings = settings; trails = []; last_update = [] }

-- `while trail.points.len() > max_points { trail.points.remove(0); }`; the loop stops before the vector is
-- empty, or with it
unfoldable pub truncate : ℕ → List TrailPoint → List TrailPoint
truncate max_points [] = []
truncate max_points (p ∷ ps) =
    let rest = truncate max_points ps in if ltb max_points (length (p ∷ ps)) then rest else p ∷ ps

abbrev pub resize : ℕ → TargetTrail → TargetTrail
resize max_points t = record { points = truncate max_points t.points; max_points = max_points }

unfoldable pub update_settings : TrailSettings → TrailStore → TrailStore
update_settings settings s =
    let trails =
      if not (settings.max_points == s.settings.max_points)
      then map_values (resize settings.max_points) s.trails
      else s.trails in
    record { settings = settings; trails = trails; last_update = s.last_update }

-- `point.timestamp - last < min_interval_ms` of a target that has an update. The difference is of 64 bits:
-- where it is negative it wraps around, or panics, which is none, in a build with overflow checks.
abbrev pub too_soon : Bool → TrailSettings → TrailPoint → Option ℕ → Option Bool
too_soon checks settings point none = some false
too_soon checks settings point (some last) =
    if checks && ltb point.timestamp last
    then none
    else some (ltb ((point.timestamp + 2 ^ 64 - last) % 2 ^ 64) settings.min_interval_ms)

-- `entry(target_id).or_insert_with(..)`
abbrev pub trail_or_new : TrailSettings → Option TargetTrail → Option TargetTrail
trail_or_new settings none = new_trail settings.max_points
trail_or_new settings (some t) = some t

-- `trail.add_point(point)` of that trail
abbrev pub extend : TrailPoint → Option TargetTrail → Option TargetTrail
extend point none = none
extend point (some t) = trail_add_point t point

-- the store with the trail that `extend` gives
abbrev pub store_trail :
    ℕ → TrailPoint → TrailStore → Option TargetTrail → Option (Bool × TrailStore)
store_trail target_id point s none = none
store_trail target_id point s (some t) = some (
  true,
  record s {
    trails = insert target_id t s.trails;
    last_update = insert target_id point.timestamp s.last_update;
  },
)

-- what follows the rate limit
abbrev pub limited : ℕ → TrailPoint → TrailStore → Option Bool → Option (Bool × TrailStore)
limited target_id point s none = none
limited target_id point s (some true) = some (false, s)
limited target_id point s (some false) =
    store_trail target_id point s
      (extend point (trail_or_new s.settings (lookup target_id s.trails)))

-- `TrailStore::add_point`, in a build with overflow checks or without: whether the point was added; none
-- is a panic
unfoldable pub add_point : Bool → ℕ → TrailPoint → TrailStore → Option (Bool × TrailStore)
add_point checks target_id point s =
    if not s.settings.enabled
    then some (false, s)
    else limited target_id point s
        (too_soon checks s.settings point (lookup target_id s.last_update))

-- `.map(|t| t.get_points().to_vec()).unwrap_or_default()`
abbrev pub points_or_none : Option TargetTrail → List TrailPoint
points_or_none none = []
points_or_none (some t) = t.points

unfoldable pub get_trail : ℕ → TrailStore → List TrailPoint
get_trail target_id s = points_or_none (lookup target_id s.trails)

abbrev cleared : TargetTrail → TargetTrail
cleared t = record t { points = [] }

-- the trail behind `get_mut` emptied, if there is one
abbrev pub clear_in : ℕ → Dict TargetTrail → Dict TargetTrail
clear_in target_id trails = elim (lookup target_id trails) [
  | none ↦ trails
  | some t ↦ insert target_id (cleared t) trails
]

unfoldable pub clear_trail : ℕ → TrailStore → TrailStore
clear_trail target_id s = record s {
  trails = clear_in target_id s.trails;
  last_update = erase target_id s.last_update;
}

unfoldable pub remove_trail : ℕ → TrailStore → TrailStore
remove_trail target_id s = record s {
  trails = erase target_id s.trails;
  last_update = erase target_id s.last_update;
}

unfoldable pub clear_all : TrailStore → TrailStore
clear_all s = record s { trails = []; last_update = [] }

-- `!trail.points.is_empty()`
abbrev pub has_points : TargetTrail → Bool
has_points t = not (length t.points == 0)

-- `current_timestamp.saturating_sub(duration_seconds * 1000)`
abbrev pub cutoff : TrailSettings → ℕ → ℕ
cutoff settings current_timestamp = current_timestamp - settings.duration_seconds * 1000

unfoldable pub prune_old_points : ℕ → TrailStore → TrailStore
prune_old_points current_timestamp s = record s {
  trails =
      retain has_points (map_values (prune_old (cutoff s.settings current_timestamp)) s.trails);
}

unfoldable pub trail_count : TrailStore → ℕ
trail_count s = length s.trails

-- the sum of `total_points`
abbrev pub points_of : Dict TargetTrail → ℕ
points_of [] = 0
points_of ((id, t) ∷ d) = length t.points + points_of d

unfoldable pub total_points : TrailStore → ℕ
total_points s = points_of s.trails

pub record TrailData : Type 0 where
  pub target_id : ℕ
  pub points : List TrailPoint

abbrev data_of : ℕ → TargetTrail → TrailData
data_of target_id t = record { target_id = target_id; points = t.points }

unfoldable pub get_trail_data : ℕ → TrailStore → Option TrailData
get_trail_data target_id s = elim (lookup target_id s.trails) [
  | none ↦ none
  | some t ↦ some (data_of target_id t)
]

unfoldable pub get_all_trail_data : TrailStore → List TrailData
get_all_trail_data s = map (λ (e : ℕ × TargetTrail). data_of e.0 e.1) s.trails
