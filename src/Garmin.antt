-- ===== src/Garmin.antt =====
-- The Garmin wire format, mayara-core/src/protocol/garmin.rs.
mod Tests
pub mod Roundtrip
pub mod Safety
use mayara.Prelude.{
  ℕ, ◌+◌, ◌-◌, ◌*◌, ◌%◌, ◌^◌, Bool, true, false, ◌&&◌, List, [], ◌∷◌, ◌++◌, Option, none, some,
  if◌then◌else◌, ◌==◌, leb, ltb, length, drop, to_le_bytes,
}
use mayara.Prelude.Int.{ℤ, pos, negsuc}
use mayara.Packet.{
  ParseError, too_short, length_mismatch, Outcome, ok, err, ◌>>=◌, at_least, byte_at, slice_at,
  word_at, as_signed,
}
use mayara.Packet.Struct.{Bincode, int_field}
use mayara.Packet.Text.{c_string}

-- The arithmetic of f32 in which angles are computed: `degrees * 32.0`, `angle / 32.0`, `x as i32` and
-- `n as f32`.
pub record Float32 : Type 0 where
  pub times_32 : ℕ → ℕ
  pub over_32 : ℕ → ℕ
  pub to_i32 : ℕ → ℤ
  pub of_i32 : ℤ → ℕ

-- `as u32` of an i32
abbrev pub as_u32 : ℤ → ℕ
as_u32 (pos n) = n
as_u32 (negsuc n) = 2 ^ 32 - 1 - n

pub data TransmitState : Type 0 where
  off standby transmit warming_up : TransmitState
  other_state : ℕ → TransmitState

pub data GainMode : Type 0 where
  manual_gain auto_gain : GainMode
  other_mode : ℕ → GainMode

pub data GainLevel : Type 0 where
  low_gain high_gain : GainLevel
  other_level : ℕ → GainLevel

-- Angles are f32, by the words of their bits; `Unknown` of the source is `unknown_report`.
pub data Report : Type 0 where
  scan_speed : ℕ → Report
  transmit_state : TransmitState → Report
  range : ℕ → Report
  gain : GainMode → ℕ → GainLevel → Report
  bearing_alignment : ℕ → Report
  crosstalk_rejection : ℕ → Report
  rain_clutter : ℕ → ℕ → Report
  sea_clutter : ℕ → ℕ → ℕ → Report
  no_transmit_zone : ℕ → ℕ → ℕ → Report
  timed_idle : ℕ → ℕ → ℕ → Report
  scanner_status : ℕ → ℕ → Report
  scanner_message : List ℕ → Report
  unknown_report : ℕ → ℕ → List ℕ → Report

-- `TransmitState::from_value`
unfoldable pub state_from_value : ℕ → TransmitState
state_from_value v =
    if v == 0
    then off
    else (if v == 1
        then standby
        else (if v == 2 then transmit else (if v == 3 then warming_up else other_state v)))

-- `GainMode::from_value`
unfoldable pub mode_from_value : ℕ → GainMode
mode_from_value v = if v == 0 then manual_gain else (if v == 2 then auto_gain else other_mode v)

-- `GainLevel::from_value`
unfoldable pub level_from_value : ℕ → GainLevel
level_from_value v = if v == 0 then low_gain else (if v == 1 then high_gain else other_level v)

unfoldable pub is_report_packet : List ℕ → Bool
is_report_packet bs = leb 9 (length bs)

-- the value of `len` bytes
unfoldable pub value_of : ℕ → List ℕ → Outcome ℕ
value_of len bs =
    if len == 1
    then byte_at 0 bs
    else (if len == 2 then word_at 2 0 bs else (if len == 4 then word_at 4 0 bs else ok 0))

-- `unwrap_or_default`
abbrev pub or_empty : Option (List ℕ) → List ℕ
or_empty none = []
or_empty (some s) = s

module _ (fl : Float32) where
  -- the `match packet_type`
  unfoldable pub report_of : ℕ → ℕ → ℕ → List ℕ → Outcome Report
  report_of packet_type len value bs =
      let message = (do
        info ← slice_at 16 80 bs
        ok (scanner_message (or_empty (c_string info)))) in
      let unknown = (do raw ← slice_at 0 len bs; ok (unknown_report packet_type value raw)) in
      if packet_type == 0x0916
      then ok (scan_speed value)
      else (if packet_type == 0x0919
          then ok (transmit_state (state_from_value value))
          else (if packet_type == 0x091e
              then ok (range value)
              else (if packet_type == 0x0930
                  then ok (bearing_alignment (fl.over_32 (fl.of_i32 (as_signed 32 value))))
                  else (if packet_type == 0x0932
                      then ok (crosstalk_rejection value)
                      else (if packet_type == 0x0992
                          then ok (scanner_status value 0)
                          else (if packet_type == 0x0993
                              then ok (scanner_status 0 value)
                              else (if (packet_type == 0x099b) && leb 80 len
                                  then message
                                  else unknown)))))))

  unfoldable pub parse_report : List ℕ → Outcome Report
  parse_report bs = at_least 9 bs do
    packet_type ← word_at 4 0 bs
    len ← word_at 4 4 bs
    let bs = drop 8 bs
    (if ltb (length bs) len
        then err (length_mismatch len (length bs))
        else (do value ← value_of len bs; report_of packet_type len value bs))

-- the fields of `SpokeHeader`
abbrev pub spoke_header : List ℕ
spoke_header = 4 ∷ (4 ∷ (2 ∷ (4 ∷ (2 ∷ []))))

-- `bearing_deg` is left out: it is `bearing_raw` by 360 / 4096, in floating point.
pub record ParsedSpokeHeader : Type 0 where
  pub range_m : ℕ
  pub bearing_raw : ℕ

unfoldable pub parse_spoke_header : Bincode → List ℕ → Outcome ParsedSpokeHeader
parse_spoke_header bin bs = at_least 16 bs do
  head ← slice_at 0 16 bs
  header ← bin.deserialize spoke_header head
  ok (record { range_m = int_field 3 header; bearing_raw = int_field 2 header })

unfoldable pub create_command : ℕ → ℕ → List ℕ
create_command packet_type value =
    to_le_bytes 4 packet_type ++ (to_le_bytes 4 4 ++ to_le_bytes 4 value)

unfoldable pub create_transmit_command : Bool → List ℕ
create_transmit_command transmitting =
    let state : ℕ = if transmitting then 2 else 1 in create_command 0x0919 state

unfoldable pub create_range_command : ℕ → List ℕ
create_range_command range_meters = create_command 0x091e range_meters

unfoldable pub create_gain_command : Bool → ℕ → List ℕ
create_gain_command is_auto value =
    let mode : ℕ = if is_auto then 2 else 0 in
    create_command 0x0924 mode ++ create_command 0x0925 value

unfoldable pub create_sea_clutter_command : Bool → ℕ → List ℕ
create_sea_clutter_command is_auto value =
    let mode : ℕ = if is_auto then 1 else 0 in
    create_command 0x0939 mode ++ create_command 0x093a value

unfoldable pub create_rain_clutter_command : Bool → ℕ → List ℕ
create_rain_clutter_command is_auto value =
    let mode : ℕ = if is_auto then 1 else 0 in
    create_command 0x0933 mode ++ create_command 0x0934 value

-- `(degrees * 32.0) as i32 as u32`
abbrev pub angle_word : Float32 → ℕ → ℕ
angle_word fl degrees = as_u32 (fl.to_i32 (fl.times_32 degrees))

unfoldable pub create_bearing_alignment_command : Float32 → ℕ → List ℕ
create_bearing_alignment_command fl degrees = create_command 0x0930 (angle_word fl degrees)

unfoldable pub create_ntz_command : Float32 → Bool → ℕ → ℕ → List ℕ
create_ntz_command fl enabled start_deg end_deg =
    let mode : ℕ = if enabled then 1 else 0 in
    create_command 0x093f mode
    ++ (create_command 0x0940 (angle_word fl start_deg)
        ++ create_command 0x0941 (angle_word fl end_deg))
