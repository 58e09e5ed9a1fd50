-- ===== src/GuardZones/Alarm.antt =====
-- The alarm of a zone over a sequence of spokes.
use mayara.Prelude.{
  ℕ, ◌+◌, ◌≤◌, ◌<◌, ◌≡◌, ◌∙◌, refl, ap, Bool, true, false, not, List, [], ◌∷◌, arith, leb, length,
  All, Bool-cases, inl, inr, if◌then◌else◌,
}
use mayara.GuardZones.Step.{
  ZoneAlertState, clear, alarm, ZoneState, zone_step, on_intrusion, on_quiet, is_alarm,
}

-- A zone over spokes with these times and peaks: whether any emits an alert, and the state behind them.
abbrev pub run : ℕ → ℕ → List (ℕ × ℕ) → ZoneState → Bool × ZoneState
run hysteresis sensitivity [] s = (false, s)
run hysteresis sensitivity ((timestamp, peak) ∷ spokes) s =
    let one = zone_step hysteresis timestamp sensitivity peak s in
    let rest = run hysteresis sensitivity spokes one.1 in (if one.0 then true else rest.0, rest.1)

-- A spoke whose peak stays below the sensitivity.
abbrev pub IsQuiet : ℕ → ℕ × ℕ → Type 0
IsQuiet sensitivity spoke = spoke.1 < sensitivity

quiet_step :
    (hysteresis timestamp sensitivity peak : ℕ) (s : ZoneState)
    → peak < sensitivity
    → zone_step hysteresis timestamp sensitivity peak s ≡ (false, on_quiet hysteresis s)
unfolding zone_step
quiet_step hysteresis timestamp sensitivity peak s h =
    let e : leb sensitivity peak ≡ false = ground arith in rw e refl

-- A zone that is clear stays as it is.
run_clear :
    (hysteresis sensitivity : ℕ) (spokes : List (ℕ × ℕ)) (s : ZoneState)
    → All (IsQuiet sensitivity) spokes
    → s.alert_state ≡ clear
    → run hysteresis sensitivity spokes s ≡ (false, s)
unfolding on_quiet
run_clear hysteresis sensitivity [] s h e = refl
run_clear hysteresis sensitivity ((t, p) ∷ spokes) s h e =
    let q : zone_step hysteresis t sensitivity p s ≡ (false, s) =
      quiet_step hysteresis t sensitivity p s h.0 ∙ (rw e refl) in
    rw q (run_clear hysteresis sensitivity spokes s h.1 e)

abbrev pub state_behind : Bool → ZoneAlertState
state_behind true = clear
state_behind false = alarm

-- A zone in alarm emits nothing, and is clear as soon as its count has come to the hysteresis.
run_alarm :
    (hysteresis sensitivity : ℕ) (spokes : List (ℕ × ℕ)) (s : ZoneState)
    → All (IsQuiet sensitivity) spokes
    → s.alert_state ≡ alarm
    → s.clear_count < hysteresis
    → ((run hysteresis sensitivity spokes s).0 ≡ false)
      × ((run hysteresis sensitivity spokes s).1.alert_state
          ≡ state_behind (leb hysteresis (s.clear_count + length spokes)))
unfolding on_quiet
run_alarm hysteresis sensitivity [] s h e l =
    let n : leb hysteresis (s.clear_count + 0) ≡ false = ground arith in (refl, e ∙ (rw n refl))
run_alarm hysteresis sensitivity ((t, p) ∷ spokes) s h e l =
    elim (Bool-cases (leb hysteresis (s.clear_count + 1))) [
      | inl full ↦
          let u = record s { alert_state = clear; clear_count = s.clear_count + 1 } in
          let q : zone_step hysteresis t sensitivity p s ≡ (false, u) =
            quiet_step hysteresis t sensitivity p s h.0 ∙ (rw (e, full) refl) in
          let n : leb hysteresis (s.clear_count + length ((t, p) ∷ spokes)) ≡ true = ground arith in
          let c = run_clear hysteresis sensitivity spokes u h.1 refl in rw (q, n, c) (refl, refl)
      | inr more ↦
          let u = record s { clear_count = s.clear_count + 1 } in
          let q : zone_step hysteresis t sensitivity p s ≡ (false, u) =
            quiet_step hysteresis t sensitivity p s h.0 ∙ (rw (e, more) refl) in
          let n : s.clear_count + length ((t, p) ∷ spokes) ≡ s.clear_count + 1 + length spokes =
            omega arith in
          rw (q, n) (run_alarm hysteresis sensitivity spokes u h.1 e (ground arith))
    ]

by_state :
    (timestamp : ℕ) (s : ZoneState) (a : ZoneAlertState)
    → s.alert_state ≡ a
    → ((on_intrusion timestamp s).0 ≡ not (is_alarm s.alert_state))
      × ((on_intrusion timestamp s).1.alert_state ≡ alarm)
      × ((on_intrusion timestamp s).1.clear_count ≡ 0)
unfolding on_intrusion
by_state timestamp s clear e =
    let b : is_alarm s.alert_state ≡ false = rw e refl in rw b (refl, refl, refl)
by_state timestamp s alarm e =
    let b : is_alarm s.alert_state ≡ true = rw e refl in rw b (refl, e, refl)

on_intrusion_lem :
    (timestamp : ℕ) (s : ZoneState)
    → ((on_intrusion timestamp s).0 ≡ not (is_alarm s.alert_state))
      × ((on_intrusion timestamp s).1.alert_state ≡ alarm)
      × ((on_intrusion timestamp s).1.clear_count ≡ 0)
unfolding on_intrusion
on_intrusion_lem timestamp s = by_state timestamp s s.alert_state refl

not_alarm : (b : Bool) → not (is_alarm (state_behind b)) ≡ b
not_alarm true = refl
not_alarm false = refl

-- An intrusion puts a zone in alarm with nothing counted, and emits an alert unless it is in alarm.
intrusion_step :
    (hysteresis timestamp sensitivity peak : ℕ) (s : ZoneState)
    → sensitivity ≤ peak
    → ((zone_step hysteresis timestamp sensitivity peak s).0 ≡ not (is_alarm s.alert_state))
      × ((zone_step hysteresis timestamp sensitivity peak s).1.alert_state ≡ alarm)
      × ((zone_step hysteresis timestamp sensitivity peak s).1.clear_count ≡ 0)
unfolding zone_step on_intrusion
intrusion_step hysteresis timestamp sensitivity peak s h =
    let e : leb sensitivity peak ≡ true = ground arith in rw e (on_intrusion_lem timestamp s)

-- Of the steps of one zone, between two intrusions no quiet step emits an alert, and the second intrusion
-- emits one exactly if the quiet steps between them are at least as many as the hysteresis, whatever was
-- counted before the first.
pub zone_step_lem :
    (hysteresis sensitivity : ℕ) (first last : ℕ × ℕ) (between : List (ℕ × ℕ)) (s : ZoneState)
    → 0 < hysteresis
    → sensitivity ≤ first.1
    → sensitivity ≤ last.1
    → All (IsQuiet sensitivity) between
    → (let raised = (zone_step hysteresis first.0 sensitivity first.1 s).1 in
        let waited = run hysteresis sensitivity between raised in
        (waited.0 ≡ false)
        × ((zone_step hysteresis last.0 sensitivity last.1 waited.1).0
            ≡ leb hysteresis (length between)))
zone_step_lem hysteresis sensitivity first last between s h f l q =
    let (emits, state, count) = intrusion_step hysteresis first.0 sensitivity first.1 s f in
    let raised = (zone_step hysteresis first.0 sensitivity first.1 s).1 in
    let (silent, behind) =
      run_alarm hysteresis sensitivity between raised q state (omega (arith, count, h)) in
    let waited = (run hysteresis sensitivity between raised).1 in
    let again = (intrusion_step hysteresis last.0 sensitivity last.1 waited l).0 in
    let n : raised.clear_count + length between ≡ length between = omega (arith, count) in
    (silent, again ∙ ap (λ a. not (is_alarm a)) behind ∙ not_alarm _ ∙ ap (leb hysteresis) n)
