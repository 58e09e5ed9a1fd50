-- ===== src/Furuno/Command/Formats.antt =====
-- The commands of mayara-core/src/protocol/furuno/command.rs, one function for each.
use mayara.Prelude.{ℕ, ◌+◌, ◌-◌, ◌/◌, ◌%◌, ◌^◌, Bool, List, [], ◌∷◌, if◌then◌else◌, ltb}
use mayara.Prelude.Int.{ℤ, pos, negsuc, ◌*ℤ◌}
use mayara.Furuno.Command.{
  set, request, format_command, meters_to_range_index, range, gain, sea, rain, custom_picture_all,
  signal_processing, status, blind_sector, heading_align, main_bang_size, antenna_height,
  scan_speed, on_time, tx_time, modules, alive_check, tx_channel, bird_mode, rez_boost,
  target_analyzer, auto_acquire,
}

-- `if b { 1 } else { 0 }`
abbrev pub flag : Bool → ℤ
flag b = if b then pos 1 else pos 0

-- an i32 of the bits of an integer: the products and the sums wrap around in a release build
abbrev word_i32 : ℕ → ℤ
word_i32 w = if ltb w (2 ^ 31) then pos w else negsuc (2 ^ 32 - 1 - w)

unfoldable pub wrap_i32 : ℤ → ℤ
wrap_i32 (pos n) = word_i32 (n % 2 ^ 32)
wrap_i32 (negsuc n) = word_i32 (2 ^ 32 - 1 - n % 2 ^ 32)

-- minus `n`
abbrev pub minus : ℕ → ℤ
minus n = if ltb 0 n then negsuc (n - 1) else pos 0

-- the division and the remainder of an i32, which round to 0
abbrev pub div_i32 : ℤ → ℕ → ℤ
div_i32 (pos n) k = pos (n / k)
div_i32 (negsuc n) k = minus ((n + 1) / k)

abbrev pub rem_i32 : ℤ → ℕ → ℤ
rem_i32 (pos n) k = pos (n % k)
rem_i32 (negsuc n) k = minus ((n + 1) % k)

abbrev pub format_status_command : Bool → List ℕ
format_status_command transmit =
    format_command set status
      ((if transmit then pos 2 else pos 1) ∷ pos 0 ∷ pos 0 ∷ pos 60 ∷ pos 300 ∷ pos 0 ∷ [])

unfoldable pub format_range_command : ℤ → List ℕ
format_range_command range_meters =
    format_command set range (meters_to_range_index range_meters ∷ pos 0 ∷ pos 0 ∷ [])

abbrev pub format_gain_command : ℤ → Bool → List ℕ
format_gain_command value auto =
    format_command set gain (flag auto ∷ value ∷ pos 0 ∷ pos 80 ∷ pos 0 ∷ [])

abbrev pub format_sea_command : ℤ → Bool → List ℕ
format_sea_command value auto =
    format_command set sea (flag auto ∷ value ∷ pos 50 ∷ pos 0 ∷ pos 0 ∷ pos 0 ∷ [])

abbrev pub format_rain_command : ℤ → Bool → List ℕ
format_rain_command value auto =
    format_command set rain (flag auto ∷ value ∷ pos 0 ∷ pos 0 ∷ pos 0 ∷ pos 0 ∷ [])

abbrev format_keepalive : List ℕ
format_keepalive = format_command request alive_check []

abbrev format_request_status : List ℕ
format_request_status = format_command request status []

abbrev format_request_gain : List ℕ
format_request_gain = format_command request gain []

abbrev format_request_sea : List ℕ
format_request_sea = format_command request sea []

abbrev format_request_rain : List ℕ
format_request_rain = format_command request rain []

abbrev format_request_range : List ℕ
format_request_range = format_command request range []

abbrev format_request_signal_processing : List ℕ
format_request_signal_processing = format_command request signal_processing []

abbrev format_request_rezboost : List ℕ
format_request_rezboost = format_command request rez_boost []

abbrev format_request_bird_mode : List ℕ
format_request_bird_mode = format_command request bird_mode []

abbrev format_request_target_analyzer : List ℕ
format_request_target_analyzer = format_command request target_analyzer []

abbrev format_request_scan_speed : List ℕ
format_request_scan_speed = format_command request scan_speed []

abbrev format_request_main_bang : List ℕ
format_request_main_bang = format_command request main_bang_size []

abbrev format_request_tx_channel : List ℕ
format_request_tx_channel = format_command request tx_channel []

abbrev format_request_blind_sector : List ℕ
format_request_blind_sector = format_command request blind_sector []

abbrev format_request_picture_all : List ℕ
format_request_picture_all = format_command request custom_picture_all []

abbrev format_request_modules : List ℕ
format_request_modules = format_command request modules []

abbrev format_request_ontime : List ℕ
format_request_ontime = format_command request on_time (pos 0 ∷ [])

abbrev format_request_txtime : List ℕ
format_request_txtime = format_command request tx_time (pos 0 ∷ [])

abbrev format_request_noise_reduction : List ℕ
format_request_noise_reduction = format_command request signal_processing (pos 0 ∷ pos 3 ∷ [])

abbrev format_request_interference_rejection : List ℕ
format_request_interference_rejection =
    format_command request signal_processing (pos 0 ∷ pos 0 ∷ [])

abbrev pub format_blind_sector_command : Bool → ℤ → ℤ → ℤ → ℤ → List ℕ
format_blind_sector_command s2_enable s1_start s1_width s2_start s2_width =
    format_command set blind_sector
      (flag s2_enable ∷ s1_start ∷ s1_width ∷ s2_start ∷ s2_width ∷ [])

abbrev format_scan_speed_command : ℤ → List ℕ
format_scan_speed_command mode = format_command set scan_speed (mode ∷ pos 0 ∷ [])

abbrev pub format_noise_reduction_command : Bool → List ℕ
format_noise_reduction_command enabled =
    format_command set signal_processing (pos 0 ∷ pos 3 ∷ flag enabled ∷ pos 0 ∷ [])

-- 2, not 1, stands for on
abbrev pub format_interference_rejection_command : Bool → List ℕ
format_interference_rejection_command enabled =
    format_command set signal_processing
      (pos 0 ∷ pos 0 ∷ (if enabled then pos 2 else pos 0) ∷ pos 0 ∷ [])

abbrev format_rezboost_command : ℤ → ℤ → List ℕ
format_rezboost_command level screen = format_command set rez_boost (level ∷ screen ∷ [])

abbrev format_bird_mode_command : ℤ → ℤ → List ℕ
format_bird_mode_command level screen = format_command set bird_mode (level ∷ screen ∷ [])

abbrev pub format_target_analyzer_command : Bool → ℤ → ℤ → List ℕ
format_target_analyzer_command enabled mode screen =
    format_command set target_analyzer (flag enabled ∷ mode ∷ screen ∷ [])

abbrev format_tx_channel_command : ℤ → List ℕ
format_tx_channel_command channel = format_command set tx_channel (channel ∷ [])

abbrev format_auto_acquire_command : Bool → List ℕ
format_auto_acquire_command enabled = format_command set auto_acquire (flag enabled ∷ [])

-- `(percent * 255) / 100`
abbrev pub main_bang_of : ℤ → ℤ
main_bang_of percent = div_i32 (wrap_i32 (percent *ℤ pos 255)) 100

unfoldable pub format_main_bang_command : ℤ → List ℕ
format_main_bang_command percent =
    format_command set main_bang_size (main_bang_of percent ∷ pos 0 ∷ [])

abbrev format_heading_align_command : ℤ → List ℕ
format_heading_align_command degrees_x10 =
    format_command set heading_align (degrees_x10 ∷ pos 0 ∷ [])

abbrev format_antenna_height_command : ℤ → List ℕ
format_antenna_height_command meters =
    format_command set antenna_height (pos 0 ∷ meters ∷ pos 0 ∷ [])
