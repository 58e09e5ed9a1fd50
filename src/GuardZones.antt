-- ===== src/GuardZones.antt =====
-- Guard zones, mayara-core/src/guard_zones/zone.rs.
mod Tests
pub mod Step
pub mod Peak
pub mod Alarm
use mayara.Prelude.{
  ℕ, zero, suc, ◌+◌, ◌-◌, Bool, true, false, ◌&&◌, ◌||◌, not, List, [], ◌∷◌, ◌++◌, Option, none,
  some, map, if◌then◌else◌, ltb, leb, ◌==◌, length, take, drop, min,
}
use mayara.GuardZones.Step.{
  ZoneAlertState, clear, alarm, ZoneState, default_state, peak_of, zone_step, or_default,
}
use mayara.Prelude.Dict.{Dict, lookup, insert, erase, map_values}

-- The floating-point numbers and what the code does with them; `as usize` is `to_ℕ`, which is 0 below 0.
pub record Float : Type 1 where
  pub F : Type 0
  pub le : F → F → Bool
  pub lt : F → F → Bool
  pub rem : F → F → F
  pub add : F → F → F
  pub mul : F → F → F
  pub div : F → F → F
  pub smaller : F → F → F
  pub of_ℕ : ℕ → F
  pub to_ℕ : F → ℕ

module _ (fl : Float) where
  pub data ZoneShape : Type 0 where
    arc : fl.F → fl.F → fl.F → fl.F → ZoneShape
    ring : fl.F → fl.F → ZoneShape

  -- `%` of Rust's floats keeps the sign.
  unfoldable pub normalize_bearing : fl.F → fl.F
  normalize_bearing bearing =
      let b = fl.rem bearing (fl.of_ℕ 360) in
      if fl.lt b (fl.of_ℕ 0) then fl.add b (fl.of_ℕ 360) else b

  -- the bearing test of an arc
  unfoldable pub in_sector : fl.F → fl.F → fl.F → Bool
  in_sector start_bearing end_bearing bearing =
      let bearing = normalize_bearing bearing in
      let start = normalize_bearing start_bearing in
      let end_ = normalize_bearing end_bearing in
      if fl.le start end_
      then fl.le start bearing && fl.le bearing end_
      else fl.le start bearing || fl.le bearing end_

  -- `ZoneShape::contains`
  unfoldable pub contains : ZoneShape → fl.F → fl.F → Bool
  contains (arc start_bearing end_bearing inner_radius outer_radius) bearing distance =
      if fl.lt distance inner_radius || fl.lt outer_radius distance
      then false
      else in_sector start_bearing end_bearing bearing
  contains (ring inner_radius outer_radius) bearing distance =
      fl.le inner_radius distance && fl.le distance outer_radius

  pub record GuardZone : Type 0 where
    pub id : ℕ
    pub enabled : Bool
    pub shape : ZoneShape
    pub sensitivity : ℕ
    pub name : Option (List ℕ)

  unfoldable pub new_arc : ℕ → fl.F → fl.F → fl.F → fl.F → GuardZone
  new_arc id start_bearing end_bearing inner_radius outer_radius = record {
    id = id;
    enabled = true;
    shape = arc start_bearing end_bearing inner_radius outer_radius;
    sensitivity = 128;
    name = none;
  }

  unfoldable pub new_ring : ℕ → fl.F → fl.F → GuardZone
  new_ring id inner_radius outer_radius = record {
    id = id;
    enabled = true;
    shape = ring inner_radius outer_radius;
    sensitivity = 128;
    name = none;
  }

  pub record ZoneAlert : Type 0 where
    pub zone_id : ℕ
    pub timestamp : ℕ
    pub bearing : fl.F
    pub distance : fl.F
    pub intensity : ℕ

  pub record GuardZoneProcessor : Type 0 where
    pub zones : Dict GuardZone
    pub states : Dict ZoneState
    pub range_scale : fl.F
    pub hysteresis_count : ℕ

  unfoldable pub new : GuardZoneProcessor
  new = record { zones = []; states = []; range_scale = fl.of_ℕ 1852; hysteresis_count = 3 }

  unfoldable pub set_range_scale : fl.F → GuardZoneProcessor → GuardZoneProcessor
  set_range_scale range_meters p = record p { range_scale = range_meters }

  -- `states.entry(id).or_default()`
  unfoldable pub add_zone : GuardZone → GuardZoneProcessor → GuardZoneProcessor
  add_zone zone p = record p {
    zones = insert zone.id zone p.zones;
    states = insert zone.id (or_default (lookup zone.id p.states)) p.states;
  }

  abbrev pub is_some : Option GuardZone → Bool
  is_some none = false
  is_some (some z) = true

  unfoldable pub remove_zone : ℕ → GuardZoneProcessor → Bool × GuardZoneProcessor
  remove_zone zone_id p = (
    is_some (lookup zone_id p.zones),
    record p { states = erase zone_id p.states; zones = erase zone_id p.zones },
  )

  -- the state behind `get_mut` reset, if there is one
  abbrev pub reset_state : ℕ → Dict ZoneState → Dict ZoneState
  reset_state zone_id states = elim (lookup zone_id states) [
    | none ↦ states
    | some s ↦ insert zone_id default_state states
  ]

  unfoldable pub set_zone_enabled : ℕ → Bool → GuardZoneProcessor → Bool × GuardZoneProcessor
  set_zone_enabled zone_id enabled p = elim (lookup zone_id p.zones) [
    | none ↦ (false, p)
    | some zone ↦ (
      true,
      record p {
        zones = insert zone_id (record zone { enabled = enabled }) p.zones;
        states = if not enabled then reset_state zone_id p.states else p.states;
      },
    )
  ]

  unfoldable pub get_alert_state : ℕ → GuardZoneProcessor → ZoneAlertState
  get_alert_state zone_id p = (or_default (lookup zone_id p.states)).alert_state

  abbrev pub matches_bearing : ZoneShape → fl.F → Bool
  matches_bearing (arc start_bearing end_bearing inner outer) bearing =
      in_sector start_bearing end_bearing bearing
  matches_bearing (ring inner outer) bearing = true

  abbrev pub radii : ZoneShape → fl.F × fl.F
  radii (arc start_bearing end_bearing inner outer) = (inner, outer)
  radii (ring inner outer) = (inner, outer)

  abbrev pub inner_idx : GuardZoneProcessor → ℕ → fl.F → ℕ
  inner_idx p samples inner = fl.to_ℕ (fl.mul (fl.div inner p.range_scale) (fl.of_ℕ samples))

  abbrev pub outer_idx : GuardZoneProcessor → ℕ → fl.F → ℕ
  outer_idx p samples outer =
      fl.to_ℕ (fl.smaller (fl.mul (fl.div outer p.range_scale) (fl.of_ℕ samples)) (fl.of_ℕ samples))

  -- the peak of a spoke in a zone, and its index
  unfoldable pub zone_peak : GuardZoneProcessor → List ℕ → GuardZone → ℕ × ℕ
  zone_peak p spoke_data zone =
      let samples = length spoke_data in
      let (inner, outer) = radii zone.shape in
      peak_of spoke_data (inner_idx p samples inner) (outer_idx p samples outer)

  -- One round of the loop over the zones: the states, and the alert of this zone if it emits one.
  unfoldable pub check_zone :
      GuardZoneProcessor
      → List ℕ
      → fl.F
      → ℕ
      → ℕ
      → GuardZone
      → Dict ZoneState
      → Dict ZoneState × List ZoneAlert
  check_zone p spoke_data bearing timestamp zone_id zone states =
      let peak = zone_peak p spoke_data zone in
      let after =
        zone_step p.hysteresis_count timestamp zone.sensitivity peak.0
          (or_default (lookup zone_id states)) in
      let distance = fl.mul (fl.div (fl.of_ℕ peak.1) (fl.of_ℕ (length spoke_data))) p.range_scale in
      let alert : ZoneAlert = record {
        zone_id = zone_id;
        timestamp = timestamp;
        bearing = bearing;
        distance = distance;
        intensity = peak.0;
      } in
      if zone.enabled && matches_bearing zone.shape bearing
      then (insert zone_id after.1 states, if after.0 then alert ∷ [] else [])
      else (states, [])

  -- `for (&zone_id, zone) in &self.zones`, in the order of the list
  unfoldable pub check_zones :
      GuardZoneProcessor
      → List ℕ
      → fl.F
      → ℕ
      → Dict GuardZone
      → Dict ZoneState
      → Dict ZoneState × List ZoneAlert
  check_zones p spoke_data bearing timestamp [] states = (states, [])
  check_zones p spoke_data bearing timestamp ((zone_id, zone) ∷ zones) states =
      let one = check_zone p spoke_data bearing timestamp zone_id zone states in
      let rest = check_zones p spoke_data bearing timestamp zones one.0 in (rest.0, one.1 ++ rest.1)

  unfoldable pub check_spoke :
      List ℕ → fl.F → ℕ → GuardZoneProcessor → GuardZoneProcessor × List ZoneAlert
  check_spoke spoke_data bearing timestamp p =
      let result = check_zones p spoke_data bearing timestamp p.zones p.states in
      if length spoke_data == 0 then (p, []) else (record p { states = result.0 }, result.1)

  abbrev pub silenced : ZoneState → ZoneState
  silenced s = record s { alert_state = clear; clear_count = 0 }

  unfoldable pub clear_alerts : GuardZoneProcessor → GuardZoneProcessor
  clear_alerts p = record p { states = map_values silenced p.states }

  unfoldable pub zone_count : GuardZoneProcessor → ℕ
  zone_count p = length p.zones

  pub record GuardZoneStatus : Type 0 where
    pub zone : GuardZone
    pub state : ZoneAlertState

  unfoldable pub get_zone_status : ℕ → GuardZoneProcessor → Option GuardZoneStatus
  get_zone_status zone_id p = elim (lookup zone_id p.zones) [
    | none ↦ none
    | some z ↦ some (record { zone = z; state = get_alert_state zone_id p })
  ]
