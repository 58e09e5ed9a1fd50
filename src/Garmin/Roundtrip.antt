-- ===== src/Garmin/Roundtrip.antt =====
-- Reports and commands are one format: a command is read back as a report.
use mayara.Prelude.{
  ℕ, ◌+◌, ◌-◌, ◌^◌, ◌<◌, ◌≡◌, ◌∙◌, ap, refl, Bool, true, false, List, [], ◌++◌, arith, length, ltb,
  leb, drop, to_le_bytes, from_le_bytes-to_le_bytes, length-to_le_bytes, length-append, take-append,
  drop-append, if◌then◌else◌,
}
use mathlib.Core.List.{append_assoc}
use mayara.Packet.{ok, ◌>>=◌, at_least, slice_at, word_at, as_signed}
use mayara.Prelude.Int.{ℤ, pos, negsuc, IsI32, IsSmall}
use mayara.Garmin.{
  Float32, as_u32, transmit_state, range, bearing_alignment, unknown_report, transmit, standby,
  state_from_value, value_of, report_of, parse_report, create_command, create_transmit_command,
  create_range_command, create_gain_command, create_bearing_alignment_command,
}

-- A word behind the bytes before it.
word_behind :
    (w v : ℕ) (before rest : List ℕ)
    → v < 256 ^ w
    → word_at w (length before) (before ++ (to_le_bytes w v ++ rest)) ≡ ok v
unfolding word_at
word_behind w v before rest h =
    let bs = before ++ (to_le_bytes w v ++ rest) in
    let n : length bs ≡ length before + (w + length rest) = omega (
      arith,
      length-append before (to_le_bytes w v ++ rest),
      length-append (to_le_bytes w v) rest,
      length-to_le_bytes w v,
    ) in
    let room : leb (length before + w) (length bs) ≡ true = ground (arith, n) in
    let gap : length before + w - length before ≡ length (to_le_bytes w v) =
      omega (arith, length-to_le_bytes w v) in
    rw (room, gap, drop-append before (to_le_bytes w v ++ rest), take-append (to_le_bytes w v) rest)
      (ap ok (from_le_bytes-to_le_bytes w v h))

-- the report that a packet of no special kind is read as
raw_report :
    (t v : ℕ) (rest : List ℕ) → slice_at 0 4 (to_le_bytes 4 v ++ rest) ≡ ok (to_le_bytes 4 v)
unfolding slice_at to_le_bytes
raw_report t v rest =
    let room : leb 4 (length (to_le_bytes 4 v ++ rest)) ≡ true = ground arith in rw room refl

drop_command : (t v : ℕ) (rest : List ℕ) → drop 12 (create_command t v ++ rest) ≡ rest
unfolding create_command to_le_bytes
drop_command t v rest = refl

-- The mode that a gain command sends: 2 for automatic, 0 for manual.
abbrev pub gain_mode : Bool → ℕ
gain_mode is_auto = if is_auto then 2 else 0

gain_mode_bound : (is_auto : Bool) → gain_mode is_auto < 2 ^ 32
gain_mode_bound true = omega arith
gain_mode_bound false = omega arith

as_u32_bound : (z : ℤ) → IsI32 z → as_u32 z < 2 ^ 32
as_u32_bound (pos n) h = omega arith
as_u32_bound (negsuc n) h = omega arith

as_signed-as_u32 : (z : ℤ) → IsI32 z → as_signed 32 (as_u32 z) ≡ z
unfolding as_signed
as_signed-as_u32 (pos n) h = ground arith
as_signed-as_u32 (negsuc n) h = ground arith

-- What f32 does on angles: a cast gives an i32, an integer up to 2 ^ 24 is an f32 that is cast back to it,
-- and 32, a power of two, scales it with no loss.
pub record IsExact (fl : Float32) : Type 0 where
  pub cast_fits : (w : ℕ) → IsI32 (fl.to_i32 w)
  pub cast_back : (k : ℤ) → IsSmall k → fl.to_i32 (fl.of_i32 k) ≡ k
  pub scales : (k : ℤ) → IsSmall k → fl.times_32 (fl.over_32 (fl.of_i32 k)) ≡ fl.of_i32 k

module _ (fl : Float32) where
  pub parse_report-create_command :
      (packet_type value : ℕ) (rest : List ℕ)
      → packet_type < 2 ^ 32
      → value < 2 ^ 32
      → parse_report fl (create_command packet_type value ++ rest)
        ≡ report_of fl packet_type 4 value (to_le_bytes 4 value ++ rest)
  unfolding parse_report create_command at_least value_of to_le_bytes
  parse_report-create_command t v rest h k =
      let bs = create_command t v ++ rest in
      let e1 : word_at 4 0 bs ≡ ok t =
        word_behind 4 t [] (to_le_bytes 4 4 ++ (to_le_bytes 4 v ++ rest)) h in
      let e2 : word_at 4 4 bs ≡ ok 4 =
        word_behind 4 4 (to_le_bytes 4 t) (to_le_bytes 4 v ++ rest) (omega arith) in
      let e3 : word_at 4 0 (drop 8 bs) ≡ ok v = word_behind 4 v [] rest k in
      let long : ltb (length bs) 9 ≡ false = ground arith in
      let room : ltb (length (drop 8 bs)) 4 ≡ false = ground arith in
      rw (long, e1, e2, room, e3) refl

  -- a packet of one of the kinds that `parse_report` passes on as they are
  abbrev pub IsPlain : ℕ → Type 0
  IsPlain t =
      (rest : List ℕ) (v : ℕ)
      → report_of fl t 4 v rest ≡ (do raw ← slice_at 0 4 rest; ok (unknown_report t v raw))

  read_plain :
      (t v : ℕ) (rest : List ℕ)
      → IsPlain t
      → t < 2 ^ 32
      → v < 2 ^ 32
      → parse_report fl (create_command t v ++ rest) ≡ ok (unknown_report t v (to_le_bytes 4 v))
  read_plain t v rest plain h k =
      parse_report-create_command t v rest h k
      ∙ plain (to_le_bytes 4 v ++ rest) v
      ∙ (rw (raw_report t v rest) refl)

  gain_mode-IsPlain : IsPlain 0x0924
  unfolding report_of
  gain_mode-IsPlain rest v = refl

  gain_value-IsPlain : IsPlain 0x0925
  unfolding report_of
  gain_value-IsPlain rest v = refl

  transmit_lem :
      (b : Bool) (rest : List ℕ)
      → parse_report fl (create_transmit_command b ++ rest)
        ≡ ok (transmit_state (if b then transmit else standby))
  unfolding create_transmit_command report_of state_from_value
  transmit_lem true rest = parse_report-create_command 0x0919 2 rest (omega arith) (omega arith)
  transmit_lem false rest = parse_report-create_command 0x0919 1 rest (omega arith) (omega arith)

  range_lem :
      (v : ℕ) (rest : List ℕ)
      → v < 2 ^ 32
      → parse_report fl (create_range_command v ++ rest) ≡ ok (range v)
  unfolding create_range_command report_of
  range_lem v rest h = parse_report-create_command 0x091e v rest (omega arith) h

  -- the angle that is left of an f32 in whole 32nds of a degree
  abbrev pub in_32nds : ℕ → ℕ
  in_32nds degrees = fl.over_32 (fl.of_i32 (fl.to_i32 (fl.times_32 degrees)))

  bearing_lem :
      (degrees : ℕ) (rest : List ℕ)
      → IsI32 (fl.to_i32 (fl.times_32 degrees))
      → parse_report fl (create_bearing_alignment_command fl degrees ++ rest)
        ≡ ok (bearing_alignment (in_32nds degrees))
  unfolding create_bearing_alignment_command report_of
  bearing_lem degrees rest h =
      let z = fl.to_i32 (fl.times_32 degrees) in
      parse_report-create_command 0x0930 (as_u32 z) rest (omega arith) (as_u32_bound z h)
      ∙ ap (λ x. ok (bearing_alignment (fl.over_32 (fl.of_i32 x)))) (as_signed-as_u32 z h)

  gain_lem :
      (is_auto : Bool) (v : ℕ) (rest : List ℕ)
      → parse_report fl (create_gain_command is_auto v ++ rest)
        ≡ ok (unknown_report 0x0924 (gain_mode is_auto) (to_le_bytes 4 (gain_mode is_auto)))
  unfolding create_gain_command
  gain_lem is_auto v rest =
      let m = gain_mode is_auto in
      ap (parse_report fl) (append_assoc (create_command 0x0924 m) (create_command 0x0925 v) rest)
      ∙ read_plain 0x0924 m (create_command 0x0925 v ++ rest) gain_mode-IsPlain (omega arith)
          (gain_mode_bound is_auto)

  gain_value_lem :
      (is_auto : Bool) (v : ℕ) (rest : List ℕ)
      → v < 2 ^ 32
      → parse_report fl (drop 12 (create_gain_command is_auto v ++ rest))
        ≡ ok (unknown_report 0x0925 v (to_le_bytes 4 v))
  unfolding create_gain_command
  gain_value_lem is_auto v rest h =
      let m = gain_mode is_auto in
      ap (λ bs. parse_report fl (drop 12 bs))
        (append_assoc (create_command 0x0924 m) (create_command 0x0925 v) rest)
      ∙ ap (parse_report fl) (drop_command 0x0924 m (create_command 0x0925 v ++ rest))
      ∙ read_plain 0x0925 v rest gain_value-IsPlain (omega arith) h

-- A transmit command is read back as the report of the state it asks for, and a range command as that of its
-- range, whatever follows in the packet. A bearing command is read back as that of its angle in whole 32nds
-- of a degree, cut by the cast to i32, so that an angle of a whole number of 32nds, up to 2 ^ 24 of them, is
-- read back as it is. A gain command is two packets of 12 bytes, and neither is read as a gain: the report
-- keeps their type and value as unknown. For any f32 whose casts give an i32, and which is exact on the
-- integers up to 2 ^ 24 and in scaling them by 32.
pub create_command_lem :
    (fl : Float32) (transmitting is_auto : Bool) (value degrees : ℕ) (k : ℤ) (rest : List ℕ)
    → IsExact fl
    → value < 2 ^ 32
    → IsSmall k
    → (parse_report fl (create_transmit_command transmitting ++ rest)
        ≡ ok (transmit_state (if transmitting then transmit else standby)))
      × (parse_report fl (create_range_command value ++ rest) ≡ ok (range value))
      × (parse_report fl (create_bearing_alignment_command fl degrees ++ rest)
          ≡ ok (bearing_alignment (in_32nds fl degrees)))
      × (parse_report fl (create_bearing_alignment_command fl (fl.over_32 (fl.of_i32 k)) ++ rest)
          ≡ ok (bearing_alignment (fl.over_32 (fl.of_i32 k))))
      × (parse_report fl (create_gain_command is_auto value ++ rest)
          ≡ ok (unknown_report 0x0924 (gain_mode is_auto) (to_le_bytes 4 (gain_mode is_auto))))
      × (parse_report fl (drop 12 (create_gain_command is_auto value ++ rest))
          ≡ ok (unknown_report 0x0925 value (to_le_bytes 4 value)))
create_command_lem fl b is_auto v degrees k rest x h s =
    let angle = fl.over_32 (fl.of_i32 k) in
    let kept : in_32nds fl angle ≡ angle =
      ap (λ w. fl.over_32 (fl.of_i32 (fl.to_i32 w))) (x.scales k s)
      ∙ ap (λ z. fl.over_32 (fl.of_i32 z)) (x.cast_back k s) in
    (
      transmit_lem fl b rest,
      range_lem fl v rest h,
      bearing_lem fl degrees rest (x.cast_fits (fl.times_32 degrees)),
      bearing_lem fl angle rest (x.cast_fits (fl.times_32 angle))
          ∙ ap (λ w. ok (bearing_alignment w)) kept,
      gain_lem fl is_auto v rest,
      gain_value_lem fl is_auto v rest h,
    )
