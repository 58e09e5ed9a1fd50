-- ===== src/Furuno/Command/Tests.antt =====
-- The theorems on the Furuno commands at concrete commands, and commands of the source's tests.
use mayara.Prelude.{◌≡◌, refl, true, [], ◌∷◌, some, arith}
use mayara.Prelude.Int.{ℤ, pos, negsuc}
use mayara.Furuno.Command.{
  new, format_command, format_args, show_i32, gain, sea, rain, blind_sector, main_bang_size,
  range_index_to_meters, meters_to_range_index,
}
use mayara.Furuno.Command.Formats.{flag, main_bang_of, format_status_command}
use mayara.Furuno.Command.Responses.{
  parse_response, parse_gain_response, parse_sea_response, parse_rain_response,
  parse_blind_sector_response, parse_main_bang_response,
}
use mayara.Furuno.Command.Roundtrip.{parse_response-format_command}
use mayara.Furuno.Command.RangeTable.{IsRangeFor, meters_to_range_index_lem}
use mayara.Furuno.Command.Replies.{parse_main_bang_response_lem, control_replies_lem}

parse_response-format_command_example :
    parse_response (format_command new gain (pos 1 ∷ negsuc 49 ∷ pos 2147483647 ∷ []))
    ≡ some (record { mode = new; cmd_id = 0x63; args = pos 1 ∷ negsuc 49 ∷ pos 2147483647 ∷ [] })
parse_response-format_command_example =
    parse_response-format_command new gain (pos 1 ∷ negsuc 49 ∷ pos 2147483647 ∷ [])
      (omega arith, (omega arith, (omega arith, tt)))

meters_to_range_index_lem_example :
    (d : ℤ) × (range_index_to_meters (meters_to_range_index (pos 70000)) ≡ some d)
    × IsRangeFor (pos 70000) d
meters_to_range_index_lem_example = meters_to_range_index_lem (pos 70000)

parse_main_bang_response_lem_example :
    parse_main_bang_response
      (format_command new main_bang_size (main_bang_of (pos 50) ∷ pos 0 ∷ []))
    ≡ some (pos 49)
parse_main_bang_response_lem_example = parse_main_bang_response_lem 50 (omega arith)

control_replies_lem_example :
    (parse_gain_response (format_command new gain (flag true ∷ pos 50 ∷ pos 0 ∷ []))
      ≡ some (record { auto = true; value = pos 50 }))
    × (parse_sea_response (format_command new sea (flag true ∷ pos 50 ∷ pos 0 ∷ []))
        ≡ some (record { auto = true; value = pos 50 }))
    × (parse_rain_response (format_command new rain (flag true ∷ pos 50 ∷ pos 0 ∷ []))
        ≡ some (record { auto = true; value = pos 50 }))
    × (parse_blind_sector_response (
          format_command new blind_sector
            (flag true ∷ pos 10 ∷ pos 20 ∷ pos 200 ∷ pos 45 ∷ pos 0 ∷ []))
        ≡ some (record {
          sector1_start = pos 10;
          sector1_width = pos 20;
          sector2_start = pos 200;
          sector2_width = pos 45;
        }))
control_replies_lem_example =
    control_replies_lem true (pos 50) (pos 10) (pos 20) (pos 200) (pos 45) (pos 0 ∷ [])
      (omega arith) (omega arith, (omega arith, (omega arith, (omega arith, tt)))) (omega arith, tt)

-- "$S69,2,0,0,60,300,0"
status_text :
    format_status_command true
    ≡ 0x24 ∷ 0x53 ∷ 0x36 ∷ 0x39 ∷ 0x2C ∷ 0x32 ∷ 0x2C ∷ 0x30 ∷ 0x2C ∷ 0x30 ∷ 0x2C ∷ 0x36 ∷ 0x30
      ∷ 0x2C ∷ 0x33 ∷ 0x30 ∷ 0x30 ∷ 0x2C ∷ 0x30 ∷ 13 ∷ 10 ∷ []
unfolding format_command format_args show_i32
status_text = refl
