-- ===== src/Arpa/Doppler.antt =====
-- The Doppler states of a target, mayara-core/src/arpa/doppler.rs.
pub mod Steps
use mayara.Prelude.{ℕ, ◌-◌, Bool, true, false, ◌&&◌, ◌||◌, not, if◌then◌else◌, ltb}

pub data DopplerState : Type 0 where
  any no_doppler approaching receding any_doppler not_receding not_approaching any_plus :
      DopplerState

unfoldable pub matches_pixel : DopplerState → Bool → Bool → Bool → Bool → Bool
matches_pixel any is_target is_backup is_approaching is_receding = is_target
matches_pixel no_doppler is_target is_backup is_approaching is_receding =
    is_target && (not is_approaching && not is_receding)
matches_pixel approaching is_target is_backup is_approaching is_receding = is_approaching
matches_pixel receding is_target is_backup is_approaching is_receding = is_receding
matches_pixel any_doppler is_target is_backup is_approaching is_receding =
    is_approaching || is_receding
matches_pixel not_receding is_target is_backup is_approaching is_receding =
    is_target && not is_receding
matches_pixel not_approaching is_target is_backup is_approaching is_receding =
    is_target && not is_approaching
matches_pixel any_plus is_target is_backup is_approaching is_receding = is_backup

-- `is_any_doppler` is the source's `*self == DopplerState::AnyDoppler`; both states end as `any`
-- where no direction prevails.
abbrev pub classify : ℕ → ℕ → ℕ → DopplerState
classify check approaching_pix receding_pix =
    if ltb receding_pix approaching_pix && ltb check approaching_pix
    then approaching
    else (if ltb approaching_pix receding_pix && ltb check receding_pix then receding else any)

-- `transition`, at the two products with a fraction, which the source takes in f64 and truncates:
-- `part_85 n` is `(n as f64 * 0.85) as u32`, `part_80 n` the same with 0.80. The counts of a contour
-- are at most its total, so that the differences do not wrap.
unfoldable pub transition : (ℕ → ℕ) → (ℕ → ℕ) → DopplerState → ℕ → ℕ → ℕ → DopplerState
transition part_85 part_80 any_doppler total_pix approaching_pix receding_pix =
    classify (part_85 total_pix) approaching_pix receding_pix
transition part_85 part_80 any total_pix approaching_pix receding_pix =
    classify (part_85 total_pix) approaching_pix receding_pix
transition part_85 part_80 receding total_pix approaching_pix receding_pix =
    if ltb receding_pix (part_80 (total_pix - approaching_pix)) then any else receding
transition part_85 part_80 approaching total_pix approaching_pix receding_pix =
    if ltb approaching_pix (part_80 (total_pix - receding_pix)) then any else approaching
transition part_85 part_80 s total_pix approaching_pix receding_pix = s
