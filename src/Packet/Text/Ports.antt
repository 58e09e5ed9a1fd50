-- ===== src/Packet/Text/Ports.antt =====
-- A port number that is printed behind an address and read back.
use mayara.Prelude.{
  ℕ, zero, suc, ◌+◌, ◌-◌, ◌*◌, ◌/◌, ◌%◌, ◌^◌, ◌<◌, ◌≡◌, ◌∙◌, ap, refl, true, false, List, [], ◌∷◌,
  ◌++◌, some, arith, ltb, ◌==◌, Bool-cases, inl, inr,
}
use native.Mathlib.Nat.{pow-suc}
use mayara.Packet.Text.{digits, show_u16, has_colon, behind_colon, read_digits, read_u16}

has_colon-append : (s t : List ℕ) → has_colon (s ++ (0x3A ∷ t)) ≡ true
has_colon-append [] t = refl
has_colon-append (c ∷ s) t = ground (arith, has_colon-append s t)

pub behind_colon-append : (s t : List ℕ) → has_colon t ≡ false → behind_colon (s ++ (0x3A ∷ t)) ≡ t
behind_colon-append [] t h = rw h refl
behind_colon-append (c ∷ s) t h = rw (has_colon-append s t) (behind_colon-append s t h)

-- A digit is neither a colon nor a sign.
has_colon-digits :
    (fuel n : ℕ) (out : List ℕ) → has_colon out ≡ false → has_colon (digits fuel n out) ≡ false
has_colon-digits zero n out h = h
has_colon-digits (suc fuel) n out h = elim (Bool-cases (ltb n 10)) [
  | inl small ↦ rw small (ground (arith, h))
  | inr large ↦
      rw large (has_colon-digits fuel (n / 10) ((0x30 + n % 10) ∷ out) (ground (arith, h)))
]

pub has_colon-show_u16 : (n : ℕ) → has_colon (show_u16 n) ≡ false
unfolding show_u16
has_colon-show_u16 n = has_colon-digits 5 n [] refl

read_digit :
    (bound n d : ℕ) (s : List ℕ)
    → d < 10
    → n * 10 + d < bound
    → read_digits bound n ((0x30 + d) ∷ s) ≡ read_digits bound (n * 10 + d) s
read_digit bound n d s h k = let e : 0x30 + d - 0x30 ≡ d = omega arith in rw e (ground arith)

pub read_digits-digits :
    (bound fuel n : ℕ) (out : List ℕ)
    → n < 10 ^ fuel
    → n < bound
    → read_digits bound 0 (digits fuel n out) ≡ read_digits bound n out
read_digits-digits bound zero n out h k = let e : 0 ≡ n = omega arith in rw e refl
read_digits-digits bound (suc fuel) n out h k = elim (Bool-cases (ltb n 10)) [
  | inl small ↦
      let e : 0 * 10 + n ≡ n = omega arith in
      rw small (
        read_digit bound 0 n out (ground arith) (omega arith) ∙ ap (λ m. read_digits bound m out) e)
  | inr large ↦
      let e : 10 ^ suc fuel ≡ 10 ^ fuel * 10 = pow-suc 10 fuel in
      let back : n / 10 * 10 + n % 10 ≡ n = omega arith in
      rw large (
        read_digits-digits bound fuel (n / 10) ((0x30 + n % 10) ∷ out) (omega arith) (omega arith)
        ∙ read_digit bound (n / 10) (n % 10) out (omega arith) (omega arith)
        ∙ ap (λ m. read_digits bound m out) back)
]

-- A text that starts with a digit has no sign.
read_u16_digit :
    (d : ℕ) (s : List ℕ) → read_u16 ((0x30 + d) ∷ s) ≡ read_digits (2 ^ 16) 0 ((0x30 + d) ∷ s)
unfolding read_u16
read_u16_digit d s = let e : (0x30 + d == 0x2B) ≡ false = ground arith in rw e refl

read_u16-digits :
    (fuel n d : ℕ) (out : List ℕ)
    → read_u16 (digits fuel n ((0x30 + d) ∷ out))
      ≡ read_digits (2 ^ 16) 0 (digits fuel n ((0x30 + d) ∷ out))
read_u16-digits zero n d out = read_u16_digit d out
read_u16-digits (suc fuel) n d out = elim (Bool-cases (ltb n 10)) [
  | inl small ↦ rw small (read_u16_digit n ((0x30 + d) ∷ out))
  | inr large ↦ rw large (read_u16-digits fuel (n / 10) (n % 10) ((0x30 + d) ∷ out))
]

read_u16_unsigned : (n : ℕ) → read_u16 (digits 5 n []) ≡ read_digits (2 ^ 16) 0 (digits 5 n [])
read_u16_unsigned n = elim (Bool-cases (ltb n 10)) [
  | inl small ↦ rw small (read_u16_digit n [])
  | inr large ↦ rw large (read_u16-digits 4 (n / 10) (n % 10) [])
]

pub read_u16-show_u16 : (n : ℕ) → n < 2 ^ 16 → read_u16 (show_u16 n) ≡ some n
unfolding show_u16
read_u16-show_u16 n h = read_u16_unsigned n ∙ read_digits-digits (2 ^ 16) 5 n [] (omega arith) h
