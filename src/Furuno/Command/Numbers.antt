-- ===== src/Furuno/Command/Numbers.antt =====
-- The numbers of a command, decimal and hexadecimal, that are printed and read back.
use mayara.Prelude.{
  ℕ, zero, suc, ◌+◌, ◌*◌, ◌/◌, ◌%◌, ◌^◌, ◌≤◌, ◌<◌, ◌≡◌, ◌∙◌, ap, refl, true, false, List, [], ◌∷◌,
  some, arith, ltb, ◌==◌, Bool-cases, inl, inr,
}
use mayara.Prelude.Int.{ℤ, pos, negsuc, IsI32}
use mayara.Packet.Text.{digits, hex_digit, unsigned, read_digits}
use mayara.Packet.Text.Ports.{read_digits-digits}
use mayara.Furuno.Command.{CommandId, as_hex, show_i32, show_hex_u8}
use mayara.Furuno.Command.Formats.{minus}
use mayara.Furuno.Command.Responses.{map_option, read_i32, hex_value, read_hex_u8}
use mayara.Furuno.Command.Plain.{}

-- A digit is no sign.
read_i32_digit :
    (d : ℕ) (s : List ℕ)
    → d < 10
    → read_i32 ((0x30 + d) ∷ s) ≡ map_option pos (read_digits (2 ^ 31) 0 ((0x30 + d) ∷ s))
unfolding read_i32
read_i32_digit d s h =
    let plus : (0x30 + d == 0x2B) ≡ false = ground arith in
    let dash : (0x30 + d == 0x2D) ≡ false = ground arith in rw (plus, dash) refl

read_i32-digits :
    (fuel n d : ℕ) (out : List ℕ)
    → d < 10
    → read_i32 (digits fuel n ((0x30 + d) ∷ out))
      ≡ map_option pos (read_digits (2 ^ 31) 0 (digits fuel n ((0x30 + d) ∷ out)))
read_i32-digits zero n d out h = read_i32_digit d out h
read_i32-digits (suc fuel) n d out h = elim (Bool-cases (ltb n 10)) [
  | inl small ↦ rw small (read_i32_digit n ((0x30 + d) ∷ out) (ground arith))
  | inr large ↦ rw large (read_i32-digits fuel (n / 10) (n % 10) ((0x30 + d) ∷ out) (omega arith))
]

read_i32_unsigned :
    (n : ℕ) → read_i32 (digits 10 n []) ≡ map_option pos (read_digits (2 ^ 31) 0 (digits 10 n []))
read_i32_unsigned n = elim (Bool-cases (ltb n 10)) [
  | inl small ↦ rw small (read_i32_digit n [] (ground arith))
  | inr large ↦ rw large (read_i32-digits 9 (n / 10) (n % 10) [] (omega arith))
]

unsigned-digits :
    (bound fuel n d : ℕ) (out : List ℕ)
    → unsigned bound (digits fuel n (d ∷ out)) ≡ read_digits bound 0 (digits fuel n (d ∷ out))
unsigned-digits bound zero n d out = refl
unsigned-digits bound (suc fuel) n d out = elim (Bool-cases (ltb n 10)) [
  | inl small ↦ rw small refl
  | inr large ↦ rw large (unsigned-digits bound fuel (n / 10) (0x30 + n % 10) (d ∷ out))
]

unsigned_all :
    (bound n : ℕ) → unsigned bound (digits 10 n []) ≡ read_digits bound 0 (digits 10 n [])
unsigned_all bound n = elim (Bool-cases (ltb n 10)) [
  | inl small ↦ rw small refl
  | inr large ↦ rw large (unsigned-digits bound 9 (n / 10) (0x30 + n % 10) [])
]

pub read_i32-show_i32 : (z : ℤ) → IsI32 z → read_i32 (show_i32 z) ≡ some z
unfolding show_i32 read_i32
read_i32-show_i32 (pos n) h =
    read_i32_unsigned n ∙ ap (map_option pos) (read_digits-digits (2 ^ 31) 10 n [] (omega arith) h)
read_i32-show_i32 (negsuc n) h =
    let back : some (minus (suc n)) ≡ some (negsuc n) = ap some (ground arith) in
    ap (map_option minus) (
      unsigned_all (2 ^ 31 + 1) (suc n)
      ∙ read_digits-digits (2 ^ 31 + 1) 10 (suc n) [] (omega arith) (omega arith))
    ∙ back

hex_value-hex_digit : (d : ℕ) → d < 16 → hex_value (hex_digit d) ≡ some d
hex_value-hex_digit d h = ground arith

hex_digit_no_sign : (d : ℕ) → d < 16 → (hex_digit d == 0x2B) ≡ false
hex_digit_no_sign d h = ground arith

-- The ids of the commands have two digits.
pub as_hex_bounds : (id : CommandId) → (16 ≤ as_hex id) × (as_hex id < 256)
as_hex_bounds id = ground arith

pub read_hex_u8-show_hex_u8 : (n : ℕ) → 16 ≤ n → n < 256 → read_hex_u8 (show_hex_u8 n) ≡ some n
unfolding read_hex_u8
read_hex_u8-show_hex_u8 n l h =
    let long : ltb n 16 ≡ false = ground arith in
    let back : n / 16 * 16 + n % 16 ≡ n = omega arith in
    let lead : 0 * 16 + n / 16 ≡ n / 16 = omega arith in
    let first : ltb (n / 16) 256 ≡ true = ground arith in
    let both : ltb (n / 16 * 16 + n % 16) 256 ≡ true = ground arith in
    rw
      (
        long,
        hex_digit_no_sign (n / 16) (omega arith),
        hex_value-hex_digit (n / 16) (omega arith),
        lead,
        first,
        hex_value-hex_digit (n % 16) (omega arith),
        both,
        back,
      )
      refl
