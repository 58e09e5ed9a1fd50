-- ===== src/Garmin/Tests.antt =====
-- Commands on which the theorem on Garmin packets is applied.
use mayara.Prelude.{
  ℕ, ◌+◌, ◌-◌, ◌*◌, ◌/◌, ◌%◌, ◌^◌, if◌then◌else◌, ◌==◌, leb, ◌≡◌, refl, true, [], ◌∷◌, ◌++◌, arith,
  drop, to_le_bytes,
}
use mayara.Prelude.Int.{ℤ, pos, negsuc, IsI32, IsSmall}
use mayara.Packet.{ok}
use mayara.Packet.Struct.{size_of}
use mayara.Garmin.{
  Float32, spoke_header, transmit_state, transmit, range, bearing_alignment, unknown_report,
  parse_report, create_transmit_command, create_range_command, create_bearing_alignment_command,
  create_gain_command,
}
use mayara.Garmin.Roundtrip.{IsExact, create_command_lem}

header_size : size_of spoke_header ≡ 16
header_size = refl

-- an f32 in 1024ths, by its magnitude and its sign
abbrev greatest : ℕ
greatest = 2 ^ 31 - 1

abbrev word_of : ℤ → ℕ
word_of (pos n) = n * 1024 * 2
word_of (negsuc n) = (n + 1) * 1024 * 2 + 1

abbrev cast : ℕ → ℤ
cast w =
    let m = w / 2 / 1024 in
    if w % 2 == 0
    then (if leb m greatest then pos m else pos greatest)
    else (if m == 0
        then pos 0
        else (if leb (m - 1) greatest then negsuc (m - 1) else negsuc greatest))

abbrev fixed_point : Float32
fixed_point = record {
  times_32 = λ w. w / 2 * 32 * 2 + w % 2;
  over_32 = λ w. w / 2 / 32 * 2 + w % 2;
  to_i32 = cast;
  of_i32 = word_of;
}

cast-word_of : (k : ℤ) → IsSmall k → cast (word_of k) ≡ k
cast-word_of (pos n) h = ground arith
cast-word_of (negsuc n) h = ground arith

scaled : (k : ℤ) → fixed_point.times_32 (fixed_point.over_32 (word_of k)) ≡ word_of k
scaled (pos n) = omega arith
scaled (negsuc n) = omega arith

cast_fits : (w : ℕ) → IsI32 (cast w)
cast_fits w = ground arith

fixed_point-IsExact : IsExact fixed_point
fixed_point-IsExact = record {
  cast_fits = cast_fits;
  cast_back = cast-word_of;
  scales = λ k h. scaled k;
}

-- 1.01 degrees, 1034 of the 1024ths, come back as 1 degree, and -1.5 degrees as themselves
create_command_lem_example :
    (parse_report fixed_point (create_transmit_command true ++ (9 ∷ []))
      ≡ ok (transmit_state transmit))
    × (parse_report fixed_point (create_range_command 1852 ++ (9 ∷ [])) ≡ ok (range 1852))
    × (parse_report fixed_point (create_bearing_alignment_command fixed_point 2068 ++ (9 ∷ []))
        ≡ ok (bearing_alignment 2048))
    × (parse_report fixed_point (create_bearing_alignment_command fixed_point 3073 ++ (9 ∷ []))
        ≡ ok (bearing_alignment 3073))
    × (parse_report fixed_point (create_gain_command true 1852 ++ (9 ∷ []))
        ≡ ok (unknown_report 0x0924 2 (to_le_bytes 4 2)))
    × (parse_report fixed_point (drop 12 (create_gain_command true 1852 ++ (9 ∷ [])))
        ≡ ok (unknown_report 0x0925 1852 (to_le_bytes 4 1852)))
create_command_lem_example =
    create_command_lem fixed_point true true 1852 2068 (negsuc 47) (9 ∷ []) fixed_point-IsExact
      (omega arith) (omega arith)
