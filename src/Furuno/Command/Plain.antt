-- ===== src/Furuno/Command/Plain.antt =====
-- Texts of characters of a range without white space, and what `trim`, `split` and the search for a comma
-- make of them.
use mayara.Prelude.{
  ℕ, zero, suc, ◌+◌, ◌/◌, ◌%◌, ◌≤◌, ◌<◌, ◌≡◌, ◌∙◌, ap, refl, false, List, [], ◌∷◌, ◌++◌, none, some,
  arith, ltb, ◌==◌, Bool-cases, inl, inr,
}
use mayara.Prelude.Int.{ℤ, pos, negsuc}
use mayara.Packet.Text.{digits, hex_digit, is_whitespace, trim, trim_start, trim_end}
use mayara.Furuno.Command.{show_i32, show_hex_u8, line_end}
use mayara.Furuno.Command.Responses.{split, before_comma, behind_comma}

-- Every character of the text is from `lo` to `~`.
abbrev pub Within : ℕ → List ℕ → Type 0
Within lo [] = Unit
Within lo (c ∷ s) = ((lo ≤ c) × (c ≤ 0x7E)) × Within lo s

-- the least visible character, and the one behind the comma
abbrev pub visible : ℕ
visible = 0x21

abbrev pub plain : ℕ
plain = 0x2D

pub Within-weaken : (s : List ℕ) → Within plain s → Within visible s
Within-weaken [] w = tt
Within-weaken (c ∷ s) ((l, h), w) = ((omega arith, h), Within-weaken s w)

pub Within-append : (lo : ℕ) (s t : List ℕ) → Within lo s → Within lo t → Within lo (s ++ t)
Within-append lo [] t v w = w
Within-append lo (c ∷ s) t (h, v) w = (h, Within-append lo s t v w)

pub Within-digits :
    (fuel n : ℕ) (out : List ℕ) → Within plain out → Within plain (digits fuel n out)
Within-digits zero n out w = w
Within-digits (suc fuel) n out w = elim (Bool-cases (ltb n 10)) [
  | inl small ↦ rw small ((omega arith, ground arith), w)
  | inr large ↦
      rw large (Within-digits fuel (n / 10) ((0x30 + n % 10) ∷ out) ((omega arith, omega arith), w))
]

pub Within-show_i32 : (z : ℤ) → Within plain (show_i32 z)
unfolding show_i32
Within-show_i32 (pos n) = Within-digits 10 n [] tt
Within-show_i32 (negsuc n) = ((omega arith, omega arith), Within-digits 10 (suc n) [] tt)

Within-hex_digit : (d : ℕ) → d < 16 → (plain ≤ hex_digit d) × (hex_digit d ≤ 0x7E)
Within-hex_digit d h = ground arith

pub Within-show_hex_u8 : (n : ℕ) → n < 256 → Within plain (show_hex_u8 n)
Within-show_hex_u8 n h = elim (Bool-cases (ltb n 16)) [
  | inl small ↦ rw small (Within-hex_digit n (ground arith), tt)
  | inr large ↦
      rw large
        (Within-hex_digit (n / 16) (omega arith), (Within-hex_digit (n % 16) (omega arith), tt))
]

not_whitespace : (c : ℕ) → visible ≤ c → c ≤ 0x7E → is_whitespace c ≡ false
not_whitespace c l h = ground arith

trim_start-Within : (s : List ℕ) → Within visible s → trim_start s ≡ s
trim_start-Within [] w = refl
trim_start-Within (c ∷ s) ((l, h), w) = rw (not_whitespace c l h) refl

trim_end-Within : (s : List ℕ) → Within visible s → trim_end s ≡ s
trim_end-Within [] w = refl
trim_end-Within (c ∷ []) ((l, h), w) = rw (not_whitespace c l h) refl
trim_end-Within (c ∷ (d ∷ s)) (h, w) = rw (trim_end-Within (d ∷ s) w) refl

pub trim-Within : (s : List ℕ) → Within visible s → trim s ≡ s
unfolding trim
trim-Within s w = ap trim_end (trim_start-Within s w) ∙ trim_end-Within s w

-- The end of the line is white space.
trim_end-line : (s : List ℕ) → Within visible s → trim_end (s ++ line_end) ≡ s
trim_end-line [] w = refl
trim_end-line (c ∷ []) ((l, h), w) = rw (not_whitespace c l h) refl
trim_end-line (c ∷ (d ∷ s)) (h, w) = rw (trim_end-line (d ∷ s) w) refl

pub trim-line : (c : ℕ) (s : List ℕ) → Within visible (c ∷ s) → trim (c ∷ (s ++ line_end)) ≡ c ∷ s
unfolding trim
trim-line c s ((l, h), w) = rw (not_whitespace c l h) (trim_end-line (c ∷ s) ((l, h), w))

-- A plain text has no comma.
not_comma : (c : ℕ) → plain ≤ c → (c == 0x2C) ≡ false
not_comma c h = ground arith

pub before_comma-plain : (s : List ℕ) → Within plain s → before_comma s ≡ s
unfolding before_comma
before_comma-plain [] w = refl
before_comma-plain (c ∷ s) ((l, h), w) =
    rw (not_comma c l) (ap (λ t. c ∷ t) (before_comma-plain s w))

pub before_comma-append : (s t : List ℕ) → Within plain s → before_comma (s ++ (0x2C ∷ t)) ≡ s
unfolding before_comma
before_comma-append [] t w = refl
before_comma-append (c ∷ s) t ((l, h), w) =
    rw (not_comma c l) (ap (λ t. c ∷ t) (before_comma-append s t w))

pub behind_comma-plain : (s : List ℕ) → Within plain s → behind_comma s ≡ none
unfolding behind_comma
behind_comma-plain [] w = refl
behind_comma-plain (c ∷ s) ((l, h), w) = rw (not_comma c l) (behind_comma-plain s w)

pub behind_comma-append : (s t : List ℕ) → Within plain s → behind_comma (s ++ (0x2C ∷ t)) ≡ some t
unfolding behind_comma
behind_comma-append [] t w = refl
behind_comma-append (c ∷ s) t ((l, h), w) = rw (not_comma c l) (behind_comma-append s t w)

pub split-plain : (s : List ℕ) → Within plain s → split s ≡ s ∷ []
unfolding split
split-plain [] w = refl
split-plain (c ∷ s) ((l, h), w) = rw (not_comma c l, split-plain s w) refl

pub split-append : (s t : List ℕ) → Within plain s → split (s ++ (0x2C ∷ t)) ≡ s ∷ split t
unfolding split
split-append [] t w = refl
split-append (c ∷ s) t ((l, h), w) = rw (not_comma c l, split-append s t w) refl
