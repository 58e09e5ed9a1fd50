-- ===== src/Furuno/Report/Lines.antt =====
-- The lines of a command as `parse_report` takes them apart.
use mayara.Prelude.{
  ℕ, ◌+◌, ◌/◌, ◌%◌, ◌≤◌, ◌<◌, ◌≡◌, ◌∙◌, sym, ap, refl, false, List, [], ◌∷◌, ◌++◌, arith, suc,
  if◌then◌else◌, length, ltb, ◌==◌,
}
use mathlib.Core.List.{append-nil, append_assoc}
use mayara.Prelude.Int.{ℤ}
use mayara.Packet.Text.{hex_digit}
use mayara.Furuno.Command.{
  CommandId, new, as_hex, show_i32, show_hex_u8, format_args, line_end, format_command,
}
use mayara.Furuno.Command.Responses.{split, utf8_len}
use mayara.Furuno.Command.Plain.{
  Within, plain, visible, Within-weaken, Within-append, Within-show_hex_u8, trim-Within,
  split-plain, split-append,
}
use mayara.Furuno.Command.Numbers.{as_hex_bounds, read_hex_u8-show_hex_u8}
use mayara.Furuno.Command.Roundtrip.{shown, split_lem, format_args-visible}
use mayara.Furuno.Report.{
  Float32, strip_lines, strip_char, strip_end, from_dollar, parse_report, read_report, report_of,
  from_u8, numbers_of,
}

strip_lines-line : (s : List ℕ) → Within visible s → strip_lines (s ++ line_end) ≡ s
unfolding strip_lines
strip_lines-line [] w = refl
strip_lines-line (c ∷ []) w = refl
strip_lines-line (c ∷ (d ∷ [])) ((l, h), w) =
    let e : (c == 13) ≡ false = ground arith in rw (strip_lines-line (d ∷ []) w, e) refl
strip_lines-line (c ∷ (d ∷ (f ∷ s))) (h, w) = rw (strip_lines-line (d ∷ (f ∷ s)) w) refl

strip_char-Within : (end : ℕ) (s : List ℕ) → end < visible → Within visible s → strip_char end s ≡ s
unfolding strip_char
strip_char-Within end [] k w = refl
strip_char-Within end (c ∷ []) k ((l, h), w) =
    let e : (c == end) ≡ false = ground arith in rw e refl
strip_char-Within end (c ∷ (d ∷ s)) k (h, w) = rw (strip_char-Within end (d ∷ s) k w) refl

strip_end-line : (s : List ℕ) → Within visible s → strip_end (s ++ line_end) ≡ s
unfolding strip_end
strip_end-line s w =
    rw
      (
        strip_lines-line s w,
        strip_char-Within 13 s (omega arith) w,
        strip_char-Within 10 s (omega arith) w,
      )
      refl

split_all :
    (s : List ℕ) (args : List ℤ) → Within plain s → split (s ++ format_args args) ≡ s ∷ shown args
unfolding format_args
split_all s [] w = rw (append-nil s) (split-plain s w)
split_all s (arg ∷ args) w =
    split-append s (show_i32 arg ++ format_args args) w ∙ ap (λ ss. s ∷ ss) (split_lem arg args)

char_size :
    (c n : ℕ)
    → suc n
      ≤ (if ltb c 0x80 then 1 else (if ltb c 0x800 then 2 else (if ltb c 0x10000 then 3 else 4)))
        + n
char_size c n = ground arith

length-utf8_len : (s : List ℕ) → length s ≤ utf8_len s
length-utf8_len [] = omega arith
length-utf8_len (c ∷ s) =
    let h = length-utf8_len s in let k = char_size c (utf8_len s) in omega arith

not_short : (n l : ℕ) → 4 ≤ l → l ≤ n → ltb n 4 ≡ false
not_short n l h k = ground arith

command_length :
    (c m n : ℕ) (s : List ℕ) → 16 ≤ n → ltb (utf8_len (c ∷ (m ∷ (show_hex_u8 n ++ s)))) 4 ≡ false
command_length c m n s h =
    let two : ltb n 16 ≡ false = ground arith in
    let line = c ∷ (m ∷ (hex_digit (n / 16) ∷ (hex_digit (n % 16) ∷ s))) in
    rw two (not_short (utf8_len line) (length line) (omega arith) (length-utf8_len line))

-- A reply of any id and arguments is read by the number of its id, with the texts of its arguments.
pub parse_report-format_command :
    (fl : Float32) (id : CommandId) (args : List ℤ)
    → parse_report fl (format_command new id args)
      ≡ report_of fl (from_u8 (as_hex id)) (as_hex id) (shown args) (numbers_of fl (shown args))
unfolding parse_report read_report from_dollar format_command
parse_report-format_command fl id args =
    let hex = show_hex_u8 (as_hex id) in
    let w : Within plain hex = Within-show_hex_u8 (as_hex id) ((as_hex_bounds id).1) in
    let v : Within visible (hex ++ format_args args) =
      Within-append visible hex (format_args args) (Within-weaken hex w)
        (format_args-visible args) in
    let e : hex ++ (format_args args ++ line_end) ≡ (hex ++ format_args args) ++ line_end =
      sym (append_assoc hex (format_args args) line_end) in
    rw
      (
        command_length 0x24 0x4E (as_hex id) (format_args args ++ line_end) ((as_hex_bounds id).0),
        e,
        strip_end-line (hex ++ format_args args) v,
        split_all hex args w,
        trim-Within hex (Within-weaken hex w),
        read_hex_u8-show_hex_u8 (as_hex id) ((as_hex_bounds id).0) ((as_hex_bounds id).1),
      )
      refl
