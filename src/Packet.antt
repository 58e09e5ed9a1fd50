-- ===== src/Packet.antt =====
-- What the packet parsers of mayara-core/src/protocol share: their errors (mayara-core/src/error.rs),
-- the reads of Rust's slices, which panic out of range, and the structs that `bincode` fills.
pub mod Safe
pub mod Gives
pub mod Struct
pub mod Head
pub mod Text
pub mod Discovery
pub mod Sample
use mayara.Prelude.Int.{ℤ, pos, negsuc}
use mayara.Prelude.{
  ◌^◌, ◌-◌, ℕ, ◌+◌, ◌≤◌, ◌≡◌, List, [], ◌∷◌, Bool, true, false, Option, none, some, if◌then◌else◌,
  ltb, leb, length, get_elem?, take, drop, slice, from_le_bytes,
}

-- `ParseError`; the texts of its messages are left out.
pub data ParseError : Type 0 where
  too_short : ℕ → ℕ → ParseError
  invalid_header : List ℕ → List ℕ → ParseError
  length_mismatch : ℕ → ℕ → ParseError
  deserialization_failed unknown_model invalid_string : ParseError
  unknown_packet_type : ℕ → ParseError
  invalid_packet : ParseError

-- `Result<A, ParseError>`, or the panic of an index out of range.
pub data Outcome {ℓ} (A : Type ℓ) : Type ℓ where
  ok : A → Outcome A
  err : ParseError → Outcome A
  panics : Outcome A

infixl 5 ◌>>=◌
abbrev pub ◌>>=◌ {ℓ κ} : {A : Type ℓ} {B : Type κ} → Outcome A → (A → Outcome B) → Outcome B
ok a >>= f = f a
err e >>= f = err e
panics >>= f = panics

-- `o.ok_or(e)`
abbrev pub ok_or {ℓ} : {A : Type ℓ} → ParseError → Option A → Outcome A
ok_or e none = err e
ok_or e (some a) = ok a

-- `if data.len() < n { return Err(TooShort { .. }); }` in front of the rest of a parser
unfoldable pub at_least {ℓ} : {A : Type ℓ} → ℕ → List ℕ → Outcome A → Outcome A
at_least n bs rest = if ltb (length bs) n then err (too_short n (length bs)) else rest

-- `data[i]`
unfoldable pub byte_at : ℕ → List ℕ → Outcome ℕ
byte_at i bs = elim (get_elem? bs i) [ none ↦ panics | some b ↦ ok b ]

-- `&data[a..b]`, for a ≤ b
unfoldable pub slice_at : ℕ → ℕ → List ℕ → Outcome (List ℕ)
slice_at a b bs = if leb b (length bs) then ok (slice a b bs) else panics

-- `from_le_bytes([data[i], data[i + 1], ..])`, a word of `w` bytes
unfoldable pub word_at : ℕ → ℕ → List ℕ → Outcome ℕ
word_at w i bs = if leb (i + w) (length bs) then ok (from_le_bytes (slice i (i + w) bs)) else panics

-- `b > 0`
abbrev pub is_set : ℕ → Bool
is_set b = ltb 0 b

-- `i8`, `i16` and `i32` from the word of their bits
unfoldable pub as_signed : ℕ → ℕ → ℤ
as_signed bits w = if ltb w (2 ^ (bits - 1)) then pos w else negsuc (2 ^ bits - 1 - w)
