-- ===== src/Furuno/Report/Echoes.antt =====
-- Replies that both parsers read: `parse_report`, and the parsers of the single responses.
use mayara.Prelude.{
  ℕ, ◌≤◌, ◌<◌, ◌≡◌, ◌∙◌, sym, ap, refl, Bool, true, false, List, [], ◌∷◌, some, if◌then◌else◌,
  arith, ltb,
}
use mathlib.Core.Path.{subst}
use mayara.Prelude.Int.{ℤ, pos, IsSmall, small_IsI32}
use mayara.Packet.{ok, is_set}
use mayara.Packet.Text.{trim}
use mayara.Furuno.Command.{
  new, format_command, show_i32, range, gain, blind_sector, meters_to_range_index,
  range_index_to_meters, or_else,
}
use mayara.Furuno.Command.Formats.{flag}
use mayara.Furuno.Command.Responses.{parse_gain_response, parse_blind_sector_response}
use mayara.Furuno.Command.Plain.{Within-weaken, Within-show_i32, trim-Within}
use mayara.Furuno.Command.Roundtrip.{AreI32}
use mayara.Furuno.Command.RangeTable.{IsRangeFor, index_bound, meters_to_range_index_lem}
use mayara.Furuno.Command.Replies.{control_replies_lem}
use mayara.Furuno.Report.{Float32, range_report, gain_report, sector_report, or_zero, parse_report}
use mayara.Furuno.Report.Lines.{parse_report-format_command}

-- The integers up to 2 ^ 24 are numbers of f32: the text of one is read, and its cast gives it back.
abbrev pub IsExact : Float32 → Type 0
IsExact fl = (z : ℤ) → IsSmall z → (w : ℕ) × (fl.parse (show_i32 z) ≡ some w) × (fl.to_i32 w ≡ z)

-- the number that is read for an integer
abbrev pub number : Float32 → ℤ → ℕ
number fl z = or_zero (fl.parse (trim (show_i32 z)))

exact_number : (fl : Float32) (z : ℤ) → IsExact fl → IsSmall z → fl.to_i32 (number fl z) ≡ z
exact_number fl z x h =
    let (w, p, q) = x z h in
    ap (λ s. fl.to_i32 (or_zero (fl.parse s)))
      (trim-Within (show_i32 z) (Within-weaken (show_i32 z) (Within-show_i32 z)))
    ∙ ap (λ o. fl.to_i32 (or_zero o)) p
    ∙ q

read_gain :
    (fl : Float32) (a b d e : ℤ) (screen : ℕ)
    → fl.to_u8 (number fl (pos screen)) ≡ screen
    → parse_report fl (format_command new gain (a ∷ b ∷ pos screen ∷ d ∷ e ∷ []))
      ≡ ok (
          gain_report
            (ltb 0 screen)
            (if ltb 0 screen then number fl d else number fl b)
            (number fl d))
read_gain fl a b d e screen cast =
    parse_report-format_command fl gain (a ∷ b ∷ pos screen ∷ d ∷ e ∷ [])
    ∙ ap
        (λ w.
          ok (gain_report (is_set w) (if is_set w then number fl d else number fl b) (number fl d)))
        cast

read_sectors :
    (fl : Float32) (a b c d : ℤ) (rest : List ℤ)
    → IsExact fl
    → IsSmall a
    → IsSmall b
    → IsSmall c
    → IsSmall d
    → parse_report fl (format_command new blind_sector (a ∷ b ∷ c ∷ d ∷ rest))
      ≡ ok (sector_report a b c d)
read_sectors fl a b c d rest x ha hb hc hd =
    let cast : ℤ → ℤ = λ z. fl.to_i32 (number fl z) in
    parse_report-format_command fl blind_sector (a ∷ b ∷ c ∷ d ∷ rest)
    ∙ ap (λ z. ok (sector_report z (cast b) (cast c) (cast d))) (exact_number fl a x ha)
    ∙ ap (λ z. ok (sector_report a z (cast c) (cast d))) (exact_number fl b x hb)
    ∙ ap (λ z. ok (sector_report a b z (cast d))) (exact_number fl c x hc)
    ∙ ap (λ z. ok (sector_report a b c z)) (exact_number fl d x hd)

read_range :
    (fl : Float32) (i : ℤ) (rest : List ℤ)
    → parse_report fl (format_command new range (i ∷ rest))
      ≡ ok (range_report (or_else (range_index_to_meters (fl.to_i32 (number fl i))) (pos 0)))
read_range fl i rest = parse_report-format_command fl range (i ∷ rest)

index-IsSmall : (m : ℤ) → IsSmall (meters_to_range_index m)
index-IsSmall m = let (n, e, h) = index_bound m in subst IsSmall (sym e) (omega arith)

-- The range that `parse_report` gives for an echo of the index that is sent for `m` metres is the least of
-- the table that is not less than `m`, or the greatest, where all of them are less. For any f32 that is
-- exact on the integers up to 2 ^ 24.
pub parse_report-range :
    (fl : Float32) (m : ℤ) (rest : List ℤ)
    → IsExact fl
    → (d : ℤ) × (parse_report fl (format_command new range (meters_to_range_index m ∷ rest))
        ≡ ok (range_report d))
      × IsRangeFor m d
parse_report-range fl m rest x =
    let (d, p, q) = meters_to_range_index_lem m in
    let i = meters_to_range_index m in
    (
      d,
      read_range fl i rest
          ∙ ap (λ z. ok (range_report (or_else (range_index_to_meters z) (pos 0))))
              (exact_number fl i x (index-IsSmall m))
          ∙ ap (λ o. ok (range_report (or_else o (pos 0)))) p,
      q,
    )

-- The casts to i32 and to u8 both round to 0, so that they agree where the i32 is a byte.
abbrev pub CastsAgree : Float32 → Type 0
CastsAgree fl = (w n : ℕ) → n ≤ 255 → fl.to_i32 w ≡ pos n → fl.to_u8 w ≡ n

-- A reply of the documented forms is read differently by the two parsers. Of a gain reply
-- `$N63,{auto},{value},{screen},{level},0` the one takes the mode from `auto` and the value from `value`.
-- `parse_report` takes the mode from `screen`: on screen 0 it is manual with `value`, on any other screen
-- up to 255 automatic with `level`, whatever `auto` is. Of a reply on the blind sectors the one takes the
-- start and the width of each sector behind the enabling of sector 2, and `parse_report` takes the first
-- four numbers, that enabling among them, for the starts and ends. For any f32 that is exact on the
-- integers up to 2 ^ 24 and whose casts round to 0, and numbers up to those.
pub replies_differ :
    (fl : Float32) (auto : Bool) (screen : ℕ) (value level start1 width1 start2 width2 : ℤ)
    → IsExact fl
    → CastsAgree fl
    → screen ≤ 255
    → IsSmall value
    → IsSmall level
    → IsSmall start1
    → IsSmall width1
    → IsSmall start2
    → IsSmall width2
    → let gain_line =
        format_command new gain (flag auto ∷ value ∷ pos screen ∷ level ∷ pos 0 ∷ []) in
      let sector_line =
        format_command new blind_sector (flag auto ∷ start1 ∷ width1 ∷ start2 ∷ width2 ∷ []) in
      (parse_gain_response gain_line ≡ some (record { auto = auto; value = value }))
      × ((v l : ℕ) × (fl.to_i32 v ≡ value)
          × (fl.to_i32 l ≡ level)
          × (screen ≡ 0 → parse_report fl gain_line ≡ ok (gain_report false v l))
          × (0 < screen → parse_report fl gain_line ≡ ok (gain_report true l l)))
      × (parse_blind_sector_response sector_line
          ≡ some (record {
            sector1_start = start1;
            sector1_width = width1;
            sector2_start = start2;
            sector2_width = width2;
          }))
      × (parse_report fl sector_line ≡ ok (sector_report (flag auto) start1 width1 start2))
replies_differ fl auto screen value level s1 w1 s2 w2 x c k hv hl h1 h2 h3 h4 =
    let flag_small : IsSmall (flag auto) = ground arith in
    let screen_small : IsSmall (pos screen) = omega arith in
    let all : AreI32 (s1 ∷ w1 ∷ s2 ∷ w2 ∷ []) =
      (small_IsI32 s1 h1, (small_IsI32 w1 h2, (small_IsI32 s2 h3, (small_IsI32 w2 h4, tt)))) in
    let gains =
      control_replies_lem auto value s1 w1 s2 w2 (pos screen ∷ level ∷ pos 0 ∷ [])
        (small_IsI32 value hv) all
        (small_IsI32 (pos screen) screen_small, (small_IsI32 level hl, (omega arith, tt))) in
    let sectors = control_replies_lem auto value s1 w1 s2 w2 [] (small_IsI32 value hv) all tt in
    let cast = c (number fl (pos screen)) screen k (exact_number fl (pos screen) x screen_small) in
    let read = read_gain fl (flag auto) value level (pos 0) screen cast in
    (
      gains.0,
      (
        number fl value,
        number fl level,
        exact_number fl value x hv,
        exact_number fl level x hl,
        (λ e. let off : ltb 0 screen ≡ false = ground arith in read ∙ (rw off refl)),
        (λ h. let on : ltb 0 screen ≡ true = ground arith in read ∙ (rw on refl)),
      ),
      sectors.3,
      read_sectors fl (flag auto) s1 w1 s2 (w2 ∷ []) x flag_small h1 h2 h3,
    )
