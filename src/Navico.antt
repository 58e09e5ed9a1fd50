-- ===== src/Navico.antt =====
-- The Navico wire format, mayara-core/src/protocol/navico.rs.
mod Tests
pub mod Reports
pub mod Spoke
pub mod Commands
pub mod Heading
pub mod Beacons
pub mod Safety
use mayara.Prelude.{
  ℕ, ◌/◌, ◌%◌, ◌^◌, Bool, true, false, ◌&&◌, ◌||◌, not, List, [], ◌∷◌, Option, none, some,
  if◌then◌else◌, ◌==◌, leb, length, get_or, bytes_eq,
}

pub data Model : Type 0 where
  unknown br24 gen3 gen4 halo : Model

-- `Model::from_byte`
unfoldable pub model_from_byte : ℕ → Model
model_from_byte model =
    if model == 0x0e || model == 0x0f
    then br24
    else (if model == 0x08
        then gen3
        else (if model == 0x01 then gen4 else (if model == 0x00 then halo else unknown)))

unfoldable pub has_doppler : Model → Bool
has_doppler halo = true
has_doppler _ = false

unfoldable pub has_dual_range : Model → Bool
has_dual_range gen4 = true
has_dual_range halo = true
has_dual_range _ = false

pub data DopplerMode : Type 0 where
  no_doppler both approaching : DopplerMode

-- `DopplerMode::from_byte`
unfoldable pub mode_from_byte : ℕ → Option DopplerMode
mode_from_byte value =
    if value == 0
    then some no_doppler
    else (if value == 1 then some both else (if value == 2 then some approaching else none))

unfoldable pub as_byte : DopplerMode → ℕ
as_byte no_doppler = 0
as_byte both = 1
as_byte approaching = 2

pub data Status : Type 0 where
  off standby transmit preparing : Status

-- `Status::from_byte`
unfoldable pub status_from_byte : ℕ → Option Status
status_from_byte value =
    if value == 0
    then some off
    else (if value == 1
        then some standby
        else (if value == 2 then some transmit else (if value == 5 then some preparing else none)))

-- The masks of a heading as quotients and remainders of its 16 bits: `x & 0x4000` is bit 14, and what
-- `!(0x4000 | 0x0fff)` leaves are the bits 12, 13 and 15.
unfoldable pub is_heading_true : ℕ → Bool
is_heading_true x = not (x / 2 ^ 14 % 2 == 0)

unfoldable pub is_valid_heading : ℕ → Bool
is_valid_heading x = (x / 2 ^ 12 % 4 == 0) && (x / 2 ^ 15 % 2 == 0)

unfoldable pub extract_heading : ℕ → Option ℕ
extract_heading x = if is_valid_heading x && is_heading_true x then some (x % 4096) else none

-- The accesses of these tests stand behind the test of the length.
unfoldable pub is_beacon_response : List ℕ → Bool
is_beacon_response bs = leb 2 (length bs) && (get_or bs 0 0 == 0x01) && (get_or bs 1 0 == 0xB2)

unfoldable pub is_address_request : List ℕ → Bool
is_address_request bs = bytes_eq bs (0x01 ∷ (0xB1 ∷ []))

unfoldable pub is_report : List ℕ → Bool
is_report bs = leb 2 (length bs) && ((get_or bs 1 0 == 0xC4) || (get_or bs 1 0 == 0xC6))

unfoldable pub get_report_type : List ℕ → Option ℕ
get_report_type bs = if is_report bs then some (get_or bs 0 0) else none
