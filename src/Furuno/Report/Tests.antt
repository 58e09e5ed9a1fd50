-- ===== src/Furuno/Report/Tests.antt =====
-- The theorems on the Furuno reports at concrete replies, for an f32 whose words are the integers.
use mayara.Prelude.{
  ◌<◌, ℕ, ◌+◌, ◌*◌, ◌/◌, ◌%◌, ◌^◌, ◌≡◌, refl, true, false, [], ◌∷◌, some, if◌then◌else◌, arith,
  ◌==◌,
}
use mayara.Prelude.Int.{ℤ, pos, negsuc, small_IsI32}
use mayara.Packet.{ok}
use mayara.Furuno.Command.{new, format_command, range, gain, blind_sector, meters_to_range_index}
use mayara.Furuno.Command.Responses.{
  map_option, read_i32, parse_gain_response, parse_blind_sector_response,
}
use mayara.Furuno.Command.Numbers.{read_i32-show_i32}
use mayara.Furuno.Command.RangeTable.{IsRangeFor}
use mayara.Furuno.Report.{Float32, range_report, gain_report, sector_report, parse_report}
use mayara.Furuno.Report.Echoes.{IsExact, CastsAgree, parse_report-range, replies_differ}

-- the word of an integer, and the integer of a word
abbrev word_of : ℤ → ℕ
word_of (pos n) = n * 2
word_of (negsuc n) = n * 2 + 1

abbrev integer_of : ℕ → ℤ
integer_of w = if w % 2 == 0 then pos (w / 2) else negsuc (w / 2)

abbrev integers : Float32
integers = record {
  parse = λ s. map_option word_of (read_i32 s);
  to_i32 = integer_of;
  to_u8 = λ w. w / 2 % 2 ^ 8;
  over_3600 = λ w. w / 3600;
}

integer_of-word_of : (z : ℤ) → integer_of (word_of z) ≡ z
integer_of-word_of (pos n) = ground arith
integer_of-word_of (negsuc n) = ground arith

integers-IsExact : IsExact integers
integers-IsExact z h =
    (word_of z, rw (read_i32-show_i32 z (small_IsI32 z h)) refl, integer_of-word_of z)

parse_report-range_example :
    (d : ℤ) × (parse_report integers
        (format_command new range (meters_to_range_index (pos 70000) ∷ pos 0 ∷ []))
      ≡ ok (range_report d))
    × IsRangeFor (pos 70000) d
parse_report-range_example = parse_report-range integers (pos 70000) (pos 0 ∷ []) integers-IsExact

integers-CastsAgree : CastsAgree integers
integers-CastsAgree w n h e = ground arith

replies_differ_example :
    let gain_line = format_command new gain (pos 1 ∷ pos 50 ∷ pos 1 ∷ pos 80 ∷ pos 0 ∷ []) in
    let sector_line =
      format_command new blind_sector (pos 1 ∷ pos 10 ∷ pos 20 ∷ pos 200 ∷ pos 45 ∷ []) in
    (parse_gain_response gain_line ≡ some (record { auto = true; value = pos 50 }))
    × ((v l : ℕ) × (integers.to_i32 v ≡ pos 50)
        × (integers.to_i32 l ≡ pos 80)
        × (◌≡◌ {A = ℕ} 1 0 → parse_report integers gain_line ≡ ok (gain_report false v l))
        × (0 < 1 → parse_report integers gain_line ≡ ok (gain_report true l l)))
    × (parse_blind_sector_response sector_line
        ≡ some (record {
          sector1_start = pos 10;
          sector1_width = pos 20;
          sector2_start = pos 200;
          sector2_width = pos 45;
        }))
    × (parse_report integers sector_line ≡ ok (sector_report (pos 1) (pos 10) (pos 20) (pos 200)))
replies_differ_example =
    replies_differ integers true 1 (pos 50) (pos 80) (pos 10) (pos 20) (pos 200) (pos 45)
      integers-IsExact integers-CastsAgree (omega arith) (omega arith) (omega arith) (omega arith)
      (omega arith) (omega arith) (omega arith)
