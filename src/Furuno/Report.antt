-- ===== src/Furuno/Report.antt =====
-- The reports of a Furuno radar, mayara-core/src/protocol/furuno/report.rs. A text is the list of its code
-- points, an f32 the word of its bits.
pub mod Lines
pub mod Echoes
mod Tests
use mayara.Prelude.{
  ℕ, ◌+◌, ◌-◌, Bool, true, false, ◌&&◌, not, List, [], ◌∷◌, Option, none, some, map, if◌then◌else◌,
  ltb, ◌==◌, bytes_eq,
}
use mayara.Prelude.Int.{ℤ, pos, eq_ℤ}
use mayara.Packet.{Outcome, ok, err, panics, ◌>>=◌, ok_or, is_set, too_short, invalid_packet}
use mayara.Packet.Text.{trim}
use mayara.Furuno.Command.{range_index_to_meters, or_else}
use mayara.Furuno.Command.Responses.{read_hex_u8, utf8_len, split}

-- The arithmetic of f32 that the parser uses: `s.parse::<f32>().ok()`, `as i32`, `as u8`, and `/ 3600.0`.
pub record Float32 : Type 0 where
  pub parse : List ℕ → Option ℕ
  pub to_i32 : ℕ → ℤ
  pub to_u8 : ℕ → ℕ
  pub over_3600 : ℕ → ℕ

pub data CommandId : Type 0 where
  connect disp_mode range gain sea rain custom_picture_all custom_picture status u6_d antenna_type
        blind_sector att main_bang_size antenna_height near_stc middle_stc far_stc
        antenna_revolution antenna_switch antenna_no on_time modules drift conning_position
        wake_up_count stc_range custom_memory build_up_time display_unit_information
        custom_atf_settings alive_check atf_settings bearing_resolution_setting accu_ship
        range_select :
      CommandId

abbrev pub command_ids : List (ℕ × CommandId)
command_ids =
    (0x60, connect)
    ∷ (0x61, disp_mode)
    ∷ (0x62, range)
    ∷ (0x63, gain)
    ∷ (0x64, sea)
    ∷ (0x65, rain)
    ∷ (0x66, custom_picture_all)
    ∷ (0x67, custom_picture)
    ∷ (0x69, status)
    ∷ (0x6D, u6_d)
    ∷ (0x6E, antenna_type)
    ∷ (0x77, blind_sector)
    ∷ (0x80, att)
    ∷ (0x83, main_bang_size)
    ∷ (0x84, antenna_height)
    ∷ (0x85, near_stc)
    ∷ (0x86, middle_stc)
    ∷ (0x87, far_stc)
    ∷ (0x89, antenna_revolution)
    ∷ (0x8A, antenna_switch)
    ∷ (0x8D, antenna_no)
    ∷ (0x8E, on_time)
    ∷ (0x96, modules)
    ∷ (0x9E, drift)
    ∷ (0xAA, conning_position)
    ∷ (0xAC, wake_up_count)
    ∷ (0xD2, stc_range)
    ∷ (0xD3, custom_memory)
    ∷ (0xD4, build_up_time)
    ∷ (0xD5, display_unit_information)
    ∷ (0xE0, custom_atf_settings)
    ∷ (0xE3, alive_check)
    ∷ (0xEA, atf_settings)
    ∷ (0xEE, bearing_resolution_setting)
    ∷ (0xF0, accu_ship)
    ∷ (0xFE, range_select)
    ∷ []

abbrev id_in : ℕ → List (ℕ × CommandId) → Option CommandId
id_in value [] = none
id_in value ((v, id) ∷ ids) = if value == v then some id else id_in value ids

-- `CommandId::from_u8`
abbrev pub from_u8 : ℕ → Option CommandId
from_u8 value = id_in value command_ids

pub data RadarState : Type 0 where
  preparing standby transmit off : RadarState

abbrev pub state_from : ℤ → RadarState
state_from v =
    if eq_ℤ v (pos 0)
    then preparing
    else (if eq_ℤ v (pos 1) then standby else (if eq_ℤ v (pos 2) then transmit else off))

pub record ModulePart : Type 0 where
  pub code : List ℕ
  pub version : List ℕ

-- `FurunoReport`, with the fields of its reports
pub data FurunoReport : Type 0 where
  status_report : RadarState → FurunoReport
  gain_report : (auto : Bool) (value auto_value : ℕ) → FurunoReport
  sea_report rain_report : (auto : Bool) (value : ℕ) → FurunoReport
  range_report : (range_meters : ℤ) → FurunoReport
  on_time_report : (hours : ℕ) → FurunoReport
  modules_report : List ModulePart → FurunoReport
  alive_check_report : FurunoReport
  picture_report antenna_report : List ℕ → FurunoReport
  sector_report : (sector1_start sector1_end sector2_start sector2_end : ℤ) → FurunoReport
  main_bang_report : (value : ℤ) → FurunoReport
  height_report : (meters : ℤ) → FurunoReport
  near_report middle_report far_report wake_up_report : ℤ → FurunoReport
  unknown_report : (command_id : ℕ) (values : List ℕ) → FurunoReport

-- `line.find('$')`, and the line from there on
unfoldable pub from_dollar : List ℕ → Option (List ℕ)
from_dollar [] = none
from_dollar (c ∷ s) = if c == 0x24 then some (c ∷ s) else from_dollar s

-- `rest.trim_end_matches("\r\n")`
abbrev pub strip_pair : ℕ → List ℕ → List ℕ
strip_pair c (d ∷ []) = if c == 13 && (d == 10) then [] else c ∷ (d ∷ [])
strip_pair c s = c ∷ s

unfoldable pub strip_lines : List ℕ → List ℕ
strip_lines [] = []
strip_lines (c ∷ s) = strip_pair c (strip_lines s)

-- `.trim_end_matches(end)` of a character
abbrev pub strip_one : ℕ → ℕ → List ℕ → List ℕ
strip_one end c [] = if c == end then [] else c ∷ []
strip_one end c (d ∷ s) = c ∷ (d ∷ s)

unfoldable pub strip_char : ℕ → List ℕ → List ℕ
strip_char end [] = []
strip_char end (c ∷ s) = strip_one end c (strip_char end s)

unfoldable pub strip_end : List ℕ → List ℕ
strip_end s = strip_char 10 (strip_char 13 (strip_lines s))

-- `s.split_once('-')`: the parts, or none without a dash
abbrev with_code : ℕ → Option ModulePart → Option ModulePart
with_code c none = none
with_code c (some p) = some (record { code = c ∷ p.code; version = p.version })

abbrev split_once : List ℕ → Option ModulePart
split_once [] = none
split_once (c ∷ s) =
    if c == 0x2D then some (record { code = []; version = s }) else with_code c (split_once s)

-- the parts of the module strings; one without a dash, as an empty one, is left out
abbrev push_part : Option ModulePart → List ModulePart → List ModulePart
push_part none ps = ps
push_part (some p) ps = p ∷ ps

abbrev parts_of : List (List ℕ) → List ModulePart
parts_of [] = []
parts_of (s ∷ ss) = push_part (split_once (trim s)) (parts_of ss)

-- `.unwrap_or(0.0)`
abbrev pub or_zero : Option ℕ → ℕ
or_zero none = 0
or_zero (some w) = w

module _ (fl : Float32) where
  -- `numbers.first().copied().unwrap_or(0.0) as i32`
  abbrev first_i32 : List ℕ → ℤ
  first_i32 [] = fl.to_i32 0
  first_i32 (w ∷ _) = fl.to_i32 w

  abbrev pub numbers_of : List (List ℕ) → List ℕ
  numbers_of strings = map (λ s. or_zero (fl.parse (trim s))) strings

  -- `numbers[i] as u8 > 0`
  abbrev pub is_on : ℕ → Bool
  is_on w = is_set (fl.to_u8 w)

  -- the match on the command id; a report with fewer numbers than it reads is refused
  abbrev pub report_of : Option CommandId → ℕ → List (List ℕ) → List ℕ → Outcome FurunoReport
  report_of (some status) cmd strings (a ∷ _) = ok (status_report (state_from (fl.to_i32 a)))
  report_of (some status) cmd strings _ = err invalid_packet
  report_of (some gain) cmd strings (a ∷ (b ∷ (c ∷ (d ∷ (e ∷ _))))) =
      ok (gain_report (is_on c) (if is_on c then d else b) d)
  report_of (some gain) cmd strings _ = err invalid_packet
  report_of (some sea) cmd strings (a ∷ (b ∷ _)) = ok (sea_report (is_on a) b)
  report_of (some sea) cmd strings _ = err invalid_packet
  report_of (some rain) cmd strings (a ∷ (b ∷ _)) = ok (rain_report (is_on a) b)
  report_of (some rain) cmd strings _ = err invalid_packet
  report_of (some range) cmd strings (a ∷ _) =
      ok (range_report (or_else (range_index_to_meters (fl.to_i32 a)) (pos 0)))
  report_of (some range) cmd strings _ = err invalid_packet
  report_of (some on_time) cmd strings (a ∷ _) = ok (on_time_report (fl.over_3600 a))
  report_of (some on_time) cmd strings _ = err invalid_packet
  report_of (some modules) cmd strings _ = ok (modules_report (parts_of strings))
  report_of (some alive_check) cmd strings _ = ok alive_check_report
  report_of (some custom_picture_all) cmd strings numbers = ok (picture_report numbers)
  report_of (some antenna_type) cmd strings numbers = ok (antenna_report numbers)
  report_of (some blind_sector) cmd strings (a ∷ (b ∷ (c ∷ (d ∷ _)))) =
      ok (sector_report (fl.to_i32 a) (fl.to_i32 b) (fl.to_i32 c) (fl.to_i32 d))
  report_of (some blind_sector) cmd strings _ = err invalid_packet
  report_of (some main_bang_size) cmd strings (a ∷ _) = ok (main_bang_report (fl.to_i32 a))
  report_of (some main_bang_size) cmd strings _ = err invalid_packet
  report_of (some antenna_height) cmd strings (a ∷ (b ∷ _)) = ok (height_report (fl.to_i32 b))
  report_of (some antenna_height) cmd strings _ = err invalid_packet
  report_of (some near_stc) cmd strings numbers = ok (near_report (first_i32 numbers))
  report_of (some middle_stc) cmd strings numbers = ok (middle_report (first_i32 numbers))
  report_of (some far_stc) cmd strings numbers = ok (far_report (first_i32 numbers))
  report_of (some wake_up_count) cmd strings numbers = ok (wake_up_report (first_i32 numbers))
  report_of _ cmd strings numbers = ok (unknown_report cmd numbers)

  -- the parts between the commas: the command id, and the strings behind it
  abbrev pub read_parts : List (List ℕ) → Outcome FurunoReport
  read_parts [] = err invalid_packet
  read_parts (cmd_str ∷ strings) = do
    cmd ← ok_or invalid_packet (read_hex_u8 (trim cmd_str))
    report_of (from_u8 cmd) cmd strings (numbers_of strings)

  -- The line from '$' on. `split_at(2)` panics where the second byte is not the end of a character.
  unfoldable pub read_report : List ℕ → Outcome FurunoReport
  read_report line =
      if ltb (utf8_len line) 4 then err (too_short 4 (utf8_len line)) else elim line [
        | [] ↦ panics
        | c ∷ [] ↦ panics
        | c ∷ (d ∷ rest) ↦
            if not (ltb d 0x80)
            then panics
            else (if not (d == 0x4E)
                then err invalid_packet
                else read_parts (split (strip_end rest)))
      ]

  unfoldable pub parse_report : List ℕ → Outcome FurunoReport
  parse_report line = do found ← ok_or invalid_packet (from_dollar line); read_report found

-- `Model` of mayara-core/src/protocol/furuno/mod.rs
pub data Model : Type 0 where
  unknown_model far21x7 drs far14x7 drs4dl far3000 drs4dnxt drs6anxt drs6axclass far15x3 far14x6
        drs12anxt drs25anxt :
      Model

abbrev firmware_models : List (List ℕ × Model)
firmware_models =
    ((0x30 ∷ 0x33 ∷ 0x35 ∷ 0x39 ∷ 0x32 ∷ 0x33 ∷ 0x35 ∷ []), drs)
    ∷ ((0x30 ∷ 0x33 ∷ 0x35 ∷ 0x39 ∷ 0x32 ∷ 0x35 ∷ 0x35 ∷ []), far14x7)
    ∷ ((0x30 ∷ 0x33 ∷ 0x35 ∷ 0x39 ∷ 0x32 ∷ 0x30 ∷ 0x34 ∷ []), far21x7)
    ∷ ((0x30 ∷ 0x33 ∷ 0x35 ∷ 0x39 ∷ 0x33 ∷ 0x32 ∷ 0x31 ∷ []), far14x7)
    ∷ ((0x30 ∷ 0x33 ∷ 0x35 ∷ 0x39 ∷ 0x33 ∷ 0x33 ∷ 0x38 ∷ []), drs4dl)
    ∷ ((0x30 ∷ 0x33 ∷ 0x35 ∷ 0x39 ∷ 0x33 ∷ 0x36 ∷ 0x37 ∷ []), drs4dl)
    ∷ ((0x30 ∷ 0x33 ∷ 0x35 ∷ 0x39 ∷ 0x32 ∷ 0x38 ∷ 0x31 ∷ []), far3000)
    ∷ ((0x30 ∷ 0x33 ∷ 0x35 ∷ 0x39 ∷ 0x32 ∷ 0x38 ∷ 0x36 ∷ []), far3000)
    ∷ ((0x30 ∷ 0x33 ∷ 0x35 ∷ 0x39 ∷ 0x34 ∷ 0x37 ∷ 0x37 ∷ []), far3000)
    ∷ ((0x30 ∷ 0x33 ∷ 0x35 ∷ 0x39 ∷ 0x33 ∷ 0x36 ∷ 0x30 ∷ []), drs4dnxt)
    ∷ ((0x30 ∷ 0x33 ∷ 0x35 ∷ 0x39 ∷ 0x34 ∷ 0x32 ∷ 0x31 ∷ []), drs6anxt)
    ∷ ((0x30 ∷ 0x33 ∷ 0x35 ∷ 0x39 ∷ 0x33 ∷ 0x35 ∷ 0x35 ∷ []), drs6axclass)
    ∷ ((0x30 ∷ 0x33 ∷ 0x35 ∷ 0x39 ∷ 0x33 ∷ 0x34 ∷ 0x34 ∷ []), far15x3)
    ∷ ((0x30 ∷ 0x33 ∷ 0x35 ∷ 0x39 ∷ 0x33 ∷ 0x39 ∷ 0x37 ∷ []), far14x6)
    ∷ ((0x30 ∷ 0x33 ∷ 0x35 ∷ 0x39 ∷ 0x34 ∷ 0x32 ∷ 0x32 ∷ []), drs12anxt)
    ∷ ((0x30 ∷ 0x33 ∷ 0x35 ∷ 0x39 ∷ 0x34 ∷ 0x32 ∷ 0x33 ∷ []), drs25anxt)
    ∷ []

abbrev model_in : List ℕ → List (List ℕ × Model) → Model
model_in code [] = unknown_model
model_in code ((c, m) ∷ ms) = if bytes_eq code c then m else model_in code ms

abbrev firmware_to_model : List ℕ → Model
firmware_to_model code = model_in code firmware_models

abbrev model_from_modules : List ModulePart → Model
model_from_modules [] = unknown_model
model_from_modules (p ∷ _) = firmware_to_model p.code

abbrev version_from_modules : List ModulePart → Option (List ℕ)
version_from_modules [] = none
version_from_modules (p ∷ _) = some p.version
