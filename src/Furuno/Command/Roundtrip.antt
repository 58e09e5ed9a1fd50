-- ===== src/Furuno/Command/Roundtrip.antt =====
-- A command that is formatted and parsed again.
use mayara.Prelude.{
  ℕ, ◌/◌, ◌%◌, ◌≤◌, ◌≡◌, ◌∙◌, sym, ap, refl, false, List, [], ◌∷◌, ◌++◌, some, arith, ltb,
  Bool-cases, inl, inr,
}
use mathlib.Core.List.{append-nil, append_assoc}
use mayara.Prelude.Int.{ℤ, IsI32}
use mayara.Packet.Text.{hex_digit, trim}
use mayara.Furuno.Command.{
  CommandMode, set, request, new, as_char, CommandId, as_hex, show_i32, show_hex_u8, format_args,
  line_end, format_command,
}
use mayara.Furuno.Command.Responses.{
  utf8_len, split, before_comma, behind_comma, read_args, args_of, mode_of, read_line,
  parse_response,
}
use mayara.Furuno.Command.Numbers.{read_i32-show_i32, as_hex_bounds, read_hex_u8-show_hex_u8}
use mayara.Furuno.Command.Plain.{
  Within, plain, visible, Within-weaken, Within-append, Within-show_i32, Within-show_hex_u8,
  trim-Within, trim-line, before_comma-plain, before_comma-append, behind_comma-plain,
  behind_comma-append, split-plain, split-append,
}

pub format_args-visible : (args : List ℤ) → Within visible (format_args args)
unfolding format_args
format_args-visible [] = tt
format_args-visible (arg ∷ args) = (
  (omega arith, omega arith),
  Within-append visible (show_i32 arg) (format_args args)
      (Within-weaken (show_i32 arg) (Within-show_i32 arg)) (format_args-visible args),
)

-- all arguments fit an i32
abbrev pub AreI32 : List ℤ → Type 0
AreI32 [] = Unit
AreI32 (arg ∷ args) = IsI32 arg × AreI32 args

-- the texts of the arguments
abbrev pub shown : List ℤ → List (List ℕ)
shown [] = []
shown (arg ∷ args) = show_i32 arg ∷ shown args

pub split_lem :
    (arg : ℤ) (args : List ℤ) → split (show_i32 arg ++ format_args args) ≡ shown (arg ∷ args)
unfolding format_args
split_lem arg [] = rw (append-nil (show_i32 arg)) (split-plain (show_i32 arg) (Within-show_i32 arg))
split_lem arg (next ∷ args) =
    split-append (show_i32 arg) (show_i32 next ++ format_args args) (Within-show_i32 arg)
    ∙ ap (λ ss. show_i32 arg ∷ ss) (split_lem next args)

read_args-shown : (args : List ℤ) → AreI32 args → read_args (shown args) ≡ args
read_args-shown [] h = refl
read_args-shown (arg ∷ args) (h, hs) =
    rw
      (
        trim-Within (show_i32 arg) (Within-weaken (show_i32 arg) (Within-show_i32 arg)),
        read_i32-show_i32 arg h,
        read_args-shown args hs,
      )
      refl

args_of-format_args :
    (s : List ℕ) (args : List ℤ)
    → Within plain s
    → AreI32 args
    → args_of (behind_comma (s ++ format_args args)) ≡ args
unfolding format_args
args_of-format_args s [] w h = rw (append-nil s, behind_comma-plain s w) refl
args_of-format_args s (arg ∷ args) w h =
    rw (behind_comma-append s (show_i32 arg ++ format_args args) w, split_lem arg args)
      (read_args-shown (arg ∷ args) h)

before_comma-format_args :
    (s : List ℕ) (args : List ℤ) → Within plain s → before_comma (s ++ format_args args) ≡ s
unfolding format_args
before_comma-format_args s [] w = rw (append-nil s) (before_comma-plain s w)
before_comma-format_args s (arg ∷ args) w =
    before_comma-append s (show_i32 arg ++ format_args args) w

mode_of-as_char : (mode : CommandMode) → mode_of (as_char mode) ≡ some mode
mode_of-as_char set = refl
mode_of-as_char request = refl
mode_of-as_char new = refl

as_char-visible : (mode : CommandMode) → (visible ≤ as_char mode) × (as_char mode ≤ 0x7E)
as_char-visible mode = ground arith

long_enough : (c m d : ℕ) (s : List ℕ) → ltb (utf8_len (c ∷ (m ∷ (d ∷ s)))) 3 ≡ false
long_enough c m d s = ground arith

hex_long_enough :
    (c m n : ℕ) (s : List ℕ) → ltb (utf8_len (c ∷ (m ∷ (show_hex_u8 n ++ s)))) 3 ≡ false
hex_long_enough c m n s = elim (Bool-cases (ltb n 16)) [
  | inl small ↦ rw small (long_enough c m (hex_digit n) s)
  | inr large ↦ rw large (long_enough c m (hex_digit (n / 16)) (hex_digit (n % 16) ∷ s))
]

trimmed :
    (mode : CommandMode) (id : CommandId) (args : List ℤ)
    → trim (format_command mode id args)
      ≡ 0x24 ∷ (as_char mode ∷ (show_hex_u8 (as_hex id) ++ format_args args))
unfolding format_command
trimmed mode id args =
    let hex = show_hex_u8 (as_hex id) in
    ap (λ s. trim (0x24 ∷ (as_char mode ∷ s))) (sym (append_assoc hex (format_args args) line_end))
    ∙ trim-line 0x24 (as_char mode ∷ (hex ++ format_args args)) (
      (omega arith, omega arith),
      (
        as_char-visible mode,
        Within-append visible hex (format_args args)
            (Within-weaken hex (Within-show_hex_u8 (as_hex id) ((as_hex_bounds id).1)))
            (format_args-visible args),
      ),
    )

-- What `format_command` writes `parse_response` reads: a line with any mode, id and arguments that are
-- integers of 32 bits gives the mode, the id's number and the arguments in their order.
pub parse_response-format_command :
    (mode : CommandMode) (id : CommandId) (args : List ℤ)
    → AreI32 args
    → parse_response (format_command mode id args)
      ≡ some (record { mode = mode; cmd_id = as_hex id; args = args })
unfolding parse_response read_line
parse_response-format_command mode id args h =
    let hex = show_hex_u8 (as_hex id) in
    let w : Within plain hex = Within-show_hex_u8 (as_hex id) ((as_hex_bounds id).1) in
    rw
      (
        trimmed mode id args,
        hex_long_enough 0x24 (as_char mode) (as_hex id) (format_args args),
        mode_of-as_char mode,
        before_comma-format_args hex args w,
        read_hex_u8-show_hex_u8 (as_hex id) ((as_hex_bounds id).0) ((as_hex_bounds id).1),
        args_of-format_args hex args w h,
      )
      refl
