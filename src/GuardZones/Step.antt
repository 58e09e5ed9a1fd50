-- ===== src/GuardZones/Step.antt =====
-- The state of one guard zone: the peak of a spoke within the zone, and what a spoke does to the alarm.
use mayara.Prelude.{
  ℕ, ◌+◌, Bool, true, false, not, List, [], ◌∷◌, Option, none, some, if◌then◌else◌, ltb, leb, take,
  drop,
}

pub data ZoneAlertState : Type 0 where
  clear alarm : ZoneAlertState

pub record ZoneState : Type 0 where
  pub alert_state : ZoneAlertState
  pub last_alert : Option ℕ
  pub clear_count : ℕ

abbrev pub default_state : ZoneState
default_state = record { alert_state = clear; last_alert = none; clear_count = 0 }

-- The loop for the peak over the samples of the range, from index `i`: the greatest so far and its index.
unfoldable pub peak_loop : List ℕ → ℕ → ℕ → ℕ → ℕ × ℕ
peak_loop [] i peak_intensity peak_idx = (peak_intensity, peak_idx)
peak_loop (b ∷ bs) i peak_intensity peak_idx =
    let greater = peak_loop bs (i + 1) b i in
    let rest = peak_loop bs (i + 1) peak_intensity peak_idx in
    if ltb peak_intensity b then greater else rest

-- `for i in inner_idx..outer_idx.min(samples)`
abbrev pub window : List ℕ → ℕ → ℕ → List ℕ
window spoke_data inner_idx outer_idx = drop inner_idx (take outer_idx spoke_data)

unfoldable pub peak_of : List ℕ → ℕ → ℕ → ℕ × ℕ
peak_of spoke_data inner_idx outer_idx =
    peak_loop (window spoke_data inner_idx outer_idx) inner_idx 0 0

abbrev pub is_alarm : ZoneAlertState → Bool
is_alarm clear = false
is_alarm alarm = true

-- the state of a zone behind a spoke with an intrusion, and whether an alert is emitted
unfoldable pub on_intrusion : ℕ → ZoneState → Bool × ZoneState
on_intrusion timestamp state =
    if not (is_alarm state.alert_state)
    then (true, record { alert_state = alarm; last_alert = some timestamp; clear_count = 0 })
    else (false, record state { clear_count = 0 })

-- the state behind a spoke with none
unfoldable pub on_quiet : ℕ → ZoneState → ZoneState
on_quiet hysteresis_count state =
    let count = state.clear_count + 1 in
    if is_alarm state.alert_state
    then (if leb hysteresis_count count
        then record state { alert_state = clear; clear_count = count }
        else record state { clear_count = count })
    else state

-- the test against the threshold
unfoldable pub zone_step : ℕ → ℕ → ℕ → ℕ → ZoneState → Bool × ZoneState
zone_step hysteresis_count timestamp sensitivity peak_intensity state =
    if leb sensitivity peak_intensity
    then on_intrusion timestamp state
    else (false, on_quiet hysteresis_count state)

abbrev pub or_default : Option ZoneState → ZoneState
or_default none = default_state
or_default (some s) = s
