-- ===== src/Packet/Text.antt =====
-- Texts of packets: Rust's `str::from_utf8` and `str::trim`, and `c_string` of
-- mayara-core/src/protocol/mod.rs. A text is the list of its code points.
pub mod Ports
use mayara.Prelude.{
  ℕ, zero, suc, ◌+◌, ◌-◌, ◌*◌, ◌/◌, ◌%◌, ◌^◌, Bool, true, false, ◌&&◌, ◌||◌, List, [], ◌∷◌, ◌++◌,
  Option, none, some, if◌then◌else◌, ltb, leb, ◌==◌,
}

abbrev pub between : ℕ → ℕ → ℕ → Bool
between lo hi b = leb lo b && leb b hi

-- A character of which `left` bytes are to come, the next of them from `lo` to `hi`, with the bits so far.
record Partial : Type 0 where
  left : ℕ
  lo : ℕ
  hi : ℕ
  bits : ℕ

-- what the first byte of a character opens; none where no character starts so
abbrev opens : ℕ → Option Partial
opens b =
    if between 0xC2 0xDF b
    then some (record { left = 1; lo = 0x80; hi = 0xBF; bits = b % 32 })
    else (if between 0xE0 0xEF b
        then some (record {
          left = 2;
          lo = if b == 0xE0 then 0xA0 else 0x80;
          hi = if b == 0xED then 0x9F else 0xBF;
          bits = b % 16;
        })
        else (if between 0xF0 0xF4 b
            then some (record {
              left = 3;
              lo = if b == 0xF0 then 0x90 else 0x80;
              hi = if b == 0xF4 then 0x8F else 0xBF;
              bits = b % 8;
            })
            else none))

abbrev cons : ℕ → Option (List ℕ) → Option (List ℕ)
cons c none = none
cons c (some s) = some (c ∷ s)

abbrev decode : Option Partial → List ℕ → Option (List ℕ)
decode none [] = some []
decode (some p) [] = none
decode none (b ∷ bs) =
    let plain = cons b (decode none bs) in
    let longer = decode (opens b) bs in
    if ltb b 0x80 then plain else elim (opens b) [ none ↦ none | some _ ↦ longer ]
decode (some p) (b ∷ bs) =
    let bits = p.bits * 64 + b % 64 in
    let last = cons bits (decode none bs) in
    let more = decode (some (record { left = p.left - 1; lo = 0x80; hi = 0xBF; bits = bits })) bs in
    if between p.lo p.hi b then (if p.left == 1 then last else more) else none

-- `std::str::from_utf8(bytes).ok()`
unfoldable pub from_utf8 : List ℕ → Option (List ℕ)
from_utf8 bs = decode none bs

-- `char::is_whitespace`
abbrev pub is_whitespace : ℕ → Bool
is_whitespace c =
    between 9 13 c
    || c == 0x20
    || c == 0x85
    || c == 0xA0
    || c == 0x1680
    || between 0x2000 0x200A c
    || between 0x2028 0x2029 c
    || c == 0x202F
    || c == 0x205F
    || c == 0x3000

abbrev pub trim_start : List ℕ → List ℕ
trim_start [] = []
trim_start (c ∷ s) = if is_whitespace c then trim_start s else c ∷ s

abbrev pub trim_end : List ℕ → List ℕ
trim_end [] = []
trim_end (c ∷ s) = elim (trim_end s) [
  | [] ↦ if is_whitespace c then [] else c ∷ []
  | d ∷ t ↦ c ∷ (d ∷ t)
]

-- `str::trim`
unfoldable pub trim : List ℕ → List ℕ
trim s = trim_end (trim_start s)

-- `&bytes[..null_pos]`
abbrev pub to_null : List ℕ → List ℕ
to_null [] = []
to_null (b ∷ bs) = if b == 0 then [] else b ∷ to_null bs

-- `.filter(|s| !s.is_empty())`
abbrev pub unless_empty : List ℕ → Option (List ℕ)
unless_empty [] = none
unless_empty (c ∷ s) = some (c ∷ s)

unfoldable pub c_string : List ℕ → Option (List ℕ)
c_string bytes = elim (from_utf8 (to_null bytes)) [ none ↦ none | some s ↦ unless_empty (trim s) ]

-- the decimal digits of a byte or of a port number, by `{}` of `format!`
abbrev pub digits : ℕ → ℕ → List ℕ → List ℕ
digits zero n out = out
digits (suc fuel) n out =
    let rest = digits fuel (n / 10) ((0x30 + n % 10) ∷ out) in
    if ltb n 10 then (0x30 + n) ∷ out else rest

-- Five digits are enough for a 16-bit number.
unfoldable pub show_u16 : ℕ → List ℕ
show_u16 n = digits 5 n []

-- `format!("{}.{}.{}.{}", a, b, c, d)`
unfoldable pub show_ip : ℕ → ℕ → ℕ → ℕ → List ℕ
show_ip a b c d =
    show_u16 a ++ (0x2E ∷ (show_u16 b ++ (0x2E ∷ (show_u16 c ++ (0x2E ∷ show_u16 d)))))

-- `s.rsplit(':').next()`: what stands behind the last colon, or the whole text
abbrev pub has_colon : List ℕ → Bool
has_colon [] = false
has_colon (c ∷ s) = if c == 0x3A then true else has_colon s

abbrev pub behind_colon : List ℕ → List ℕ
behind_colon [] = []
behind_colon (c ∷ s) = if has_colon s then behind_colon s else (if c == 0x3A then s else c ∷ s)

-- the digits of a number below `bound`, behind the value of those before them
abbrev pub read_digits : ℕ → ℕ → List ℕ → Option ℕ
read_digits bound n [] = some n
read_digits bound n (c ∷ s) =
    let m = n * 10 + (c - 0x30) in
    let rest = read_digits bound m s in if between 0x30 0x39 c && ltb m bound then rest else none

-- a number of one digit at least
abbrev pub unsigned : ℕ → List ℕ → Option ℕ
unsigned bound [] = none
unsigned bound (c ∷ s) = read_digits bound 0 (c ∷ s)

-- `s.parse::<u16>().ok()`, which takes a sign in front of the digits
unfoldable pub read_u16 : List ℕ → Option ℕ
read_u16 [] = none
read_u16 (c ∷ s) = if c == 0x2B then unsigned (2 ^ 16) s else read_digits (2 ^ 16) 0 (c ∷ s)

abbrev pub hex_digit : ℕ → ℕ
hex_digit d = if ltb d 10 then 0x30 + d else 0x41 + (d - 10)

-- `{:08X}` of a number below 2 ^ 32, by its eight digits
abbrev pub hex_digits : ℕ → ℕ → List ℕ → List ℕ
hex_digits zero n out = out
hex_digits (suc k) n out = hex_digits k (n / 16) (hex_digit (n % 16) ∷ out)

unfoldable pub show_hex : ℕ → List ℕ
show_hex n = hex_digits 8 n []

-- `data.chunks_exact(2)` as little-endian words, up to the first 0
abbrev pub wide_units : List ℕ → List ℕ
wide_units [] = []
wide_units (a ∷ []) = []
wide_units (a ∷ (b ∷ bs)) =
    let rest = wide_units bs in if a + 256 * b == 0 then [] else (a + 256 * b) ∷ rest

-- `String::from_utf16_lossy`, behind a first half of a pair or not
abbrev lossy : Option ℕ → List ℕ → List ℕ
lossy none [] = []
lossy (some h) [] = 0xFFFD ∷ []
lossy none (u ∷ us) =
    let first = lossy (some u) us in
    let rest = lossy none us in
    if between 0xD800 0xDBFF u
    then first
    else (if between 0xDC00 0xDFFF u then 0xFFFD ∷ rest else u ∷ rest)
lossy (some h) (u ∷ us) =
    let first = lossy (some u) us in
    let rest = lossy none us in
    if between 0xDC00 0xDFFF u
    then (0x10000 + (h - 0xD800) * 1024 + (u - 0xDC00)) ∷ rest
    else (if between 0xD800 0xDBFF u then 0xFFFD ∷ first else 0xFFFD ∷ (u ∷ rest))

-- `wide_string_to_string` of mayara-core/src/protocol/navico.rs
unfoldable pub wide_string : List ℕ → List ℕ
wide_string bs = lossy none (wide_units bs)
