-- ===== src/Furuno/Command.antt =====
-- The commands to a Furuno radar, mayara-core/src/protocol/furuno/command.rs: `format_command` and the
-- range table. An i32 is an integer of `ℤ`; a text is the list of its code points.
pub mod Formats
pub mod Responses
pub mod Plain
pub mod Numbers
pub mod Roundtrip
pub mod Replies
pub mod RangeTable
mod Tests
use mayara.Prelude.{
  ℕ, suc, ◌+◌, ◌*◌, ◌/◌, ◌%◌, ◌^◌, Bool, true, false, ◌||◌, not, List, [], ◌∷◌, ◌++◌, Option, none,
  some, if◌then◌else◌, ltb, leb, ◌==◌, length, get_or, slice, bytes_eq,
}
use mayara.Connection.Login.{base_port, login_response_header}
use mayara.Prelude.Int.{ℤ, pos, negsuc, eq_ℤ, leb_ℤ}
use mayara.Packet.Text.{digits, hex_digit}

pub data CommandMode : Type 0 where
  set request new : CommandMode

-- 'S', 'R' and 'N'
abbrev pub as_char : CommandMode → ℕ
as_char set = 0x53
as_char request = 0x52
as_char new = 0x4E

-- `mode == CommandMode::New`
abbrev pub is_new : CommandMode → Bool
is_new new = true
is_new _ = false

pub data CommandId : Type 0 where
  connect range gain sea rain custom_picture_all signal_processing status blind_sector heading_align
        main_bang_size antenna_height scan_speed on_time tx_time modules alive_check tx_channel
        bird_mode rez_boost target_analyzer auto_acquire :
      CommandId

abbrev pub as_hex : CommandId → ℕ
as_hex connect = 0x60
as_hex range = 0x62
as_hex gain = 0x63
as_hex sea = 0x64
as_hex rain = 0x65
as_hex custom_picture_all = 0x66
as_hex signal_processing = 0x67
as_hex status = 0x69
as_hex blind_sector = 0x77
as_hex heading_align = 0x81
as_hex main_bang_size = 0x83
as_hex antenna_height = 0x84
as_hex scan_speed = 0x89
as_hex on_time = 0x8E
as_hex tx_time = 0x8F
as_hex modules = 0x96
as_hex alive_check = 0xE3
as_hex tx_channel = 0xEC
as_hex bird_mode = 0xED
as_hex rez_boost = 0xEE
as_hex target_analyzer = 0xEF
as_hex auto_acquire = 0xF0

-- `{}` of an i32, whose magnitude has ten digits at most
unfoldable pub show_i32 : ℤ → List ℕ
show_i32 (pos n) = digits 10 n []
show_i32 (negsuc n) = 0x2D ∷ digits 10 (suc n) []

-- `{:X}` of a u8
abbrev pub show_hex_u8 : ℕ → List ℕ
show_hex_u8 n =
    if ltb n 16 then hex_digit n ∷ [] else hex_digit (n / 16) ∷ (hex_digit (n % 16) ∷ [])

-- the loop over the arguments, each of them behind a comma
unfoldable pub format_args : List ℤ → List ℕ
format_args [] = []
format_args (arg ∷ args) = 0x2C ∷ (show_i32 arg ++ format_args args)

-- `"\r\n"`
abbrev pub line_end : List ℕ
line_end = 13 ∷ (10 ∷ [])

unfoldable pub format_command : CommandMode → CommandId → List ℤ → List ℕ
format_command mode id args =
    0x24 ∷ (as_char mode ∷ (show_hex_u8 (as_hex id) ++ (format_args args ++ line_end)))

-- The port is a sum of 16 bits, which wraps around in a release build.
unfoldable pub parse_login_response : List ℕ → Option ℕ
parse_login_response bs =
    if ltb (length bs) 12
    then none
    else (if not (bytes_eq (slice 0 8 bs) login_response_header)
        then none
        else some ((base_port + (get_or bs 8 0 * 256 + get_or bs 9 0)) % 2 ^ 16))

-- `RANGE_TABLE`: the wire index and the metres of each range
abbrev pub range_table : List (ℤ × ℤ)
range_table =
    (pos 21, pos 116)
    ∷ ((pos 0, pos 231)
        ∷ ((pos 1, pos 463)
            ∷ ((pos 2, pos 926)
                ∷ ((pos 3, pos 1389)
                    ∷ ((pos 4, pos 1852)
                        ∷ ((pos 5, pos 2778)
                            ∷ ((pos 6, pos 3704)
                                ∷ ((pos 7, pos 5556)
                                    ∷ ((pos 8, pos 7408)
                                        ∷ ((pos 9, pos 11112)
                                            ∷ ((pos 10, pos 14816)
                                                ∷ ((pos 11, pos 22224)
                                                    ∷ ((pos 12, pos 29632)
                                                        ∷ ((pos 13, pos 44448)
                                                            ∷ ((pos 14, pos 59264)
                                                            ∷ ((pos 19, pos 66672)
                                                            ∷ ((pos 15, pos 88896)
                                                            ∷ [])))))))))))))))))

-- `.iter().find(|(idx, _)| *idx == wire_index).map(|(_, meters)| *meters)`
abbrev pub meters_of : ℤ → List (ℤ × ℤ) → Option ℤ
meters_of wire_index [] = none
meters_of wire_index ((idx, meters) ∷ table) =
    let rest = meters_of wire_index table in if eq_ℤ idx wire_index then some meters else rest

unfoldable pub range_index_to_meters : ℤ → Option ℤ
range_index_to_meters wire_index = meters_of wire_index range_table

-- the two loops over the table: the first entry that is `meters`, or the first that is not less
abbrev pub exact_index : ℤ → List (ℤ × ℤ) → Option ℤ
exact_index meters [] = none
exact_index meters ((wire_idx, m) ∷ table) =
    let rest = exact_index meters table in if eq_ℤ m meters then some wire_idx else rest

abbrev pub next_index : ℤ → List (ℤ × ℤ) → Option ℤ
next_index meters [] = none
next_index meters ((wire_idx, m) ∷ table) =
    let rest = next_index meters table in if leb_ℤ meters m then some wire_idx else rest

abbrev pub or_else : Option ℤ → ℤ → ℤ
or_else none z = z
or_else (some y) z = y

unfoldable pub meters_to_range_index : ℤ → ℤ
meters_to_range_index meters =
    or_else (exact_index meters range_table) (or_else (next_index meters range_table) (pos 15))
