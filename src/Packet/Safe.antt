-- ===== src/Packet/Safe.antt =====
-- Parsers that do not panic, and the rules that show it of a `do` block.
use mayara.Prelude.{
  ℕ, ◌+◌, ◌≤◌, ◌<◌, ◌≡◌, ◌≢◌, inl, inr, refl, List, [], ◌∷◌, Bool, true, false, Option, none, some,
  arith, if◌then◌else◌, ltb, leb, length, get_elem?, Bool-cases, le→leb, zero, suc,
}
use mayara.Packet.{
  ParseError, Outcome, ok, err, panics, ◌>>=◌, ok_or, at_least, byte_at, slice_at, word_at,
}

-- The parser comes back, with a value or with an error.
pub record Safe {ℓ} {A : Type ℓ} (r : Outcome A) : Type ℓ where
  pub returns : r ≢ panics

module _ {ℓ} {A : Type ℓ} where
  pub Safe-ok : (a : A) → Safe (ok a)
  Safe-ok a = record { returns = λ e. cc }

  pub Safe-err : (e : ParseError) → Safe {A = A} (err e)
  Safe-err e = record { returns = λ p. cc }

  pub Safe-bind {κ} :
      {B : Type κ} (m : Outcome B) (f : B → Outcome A)
      → Safe m
      → ((b : B) → Safe (f b))
      → Safe (m >>= f)
  Safe-bind (ok b) f h k = k b
  Safe-bind (err e) f h k = Safe-err e
  Safe-bind panics f h k = absurd (h.returns refl)

  pub Safe-if : (b : Bool) (x y : Outcome A) → Safe x → Safe y → Safe (if b then x else y)
  Safe-if true x y hx hy = hx
  Safe-if false x y hx hy = hy

  pub Safe-ok_or : (e : ParseError) (o : Option A) → Safe (ok_or e o)
  Safe-ok_or e none = Safe-err e
  Safe-ok_or e (some a) = Safe-ok a

  pub Safe-at_least :
      (n : ℕ) (bs : List ℕ) (rest : Outcome A)
      → (n ≤ length bs → Safe rest)
      → Safe (at_least n bs rest)
  unfolding at_least
  Safe-at_least n bs rest h = elim (Bool-cases (ltb (length bs) n)) [
    | inl short ↦ rw short (Safe-err _)
    | inr long ↦ rw long (h (ground arith))
  ]

pub get_elem?_in_range :
    {A : Type 0} (bs : List A) (i : ℕ) → i < length bs → (b : A) × (get_elem? bs i ≡ some b)
get_elem?_in_range [] i h = elim h [ ]
get_elem?_in_range (b ∷ bs) zero h = (b, refl)
get_elem?_in_range (b ∷ bs) (suc i) h = get_elem?_in_range bs i (omega arith)

pub Safe-byte_at : (i : ℕ) (bs : List ℕ) → i < length bs → Safe (byte_at i bs)
unfolding byte_at
Safe-byte_at i bs h = let (b, e) = get_elem?_in_range bs i h in rw (e, byte_at) (Safe-ok b)

pub Safe-slice_at : (a b : ℕ) (bs : List ℕ) → b ≤ length bs → Safe (slice_at a b bs)
unfolding slice_at
Safe-slice_at a b bs h = rw (le→leb b (length bs) h) (Safe-ok _)

pub Safe-word_at : (w i : ℕ) (bs : List ℕ) → i + w ≤ length bs → Safe (word_at w i bs)
unfolding word_at
Safe-word_at w i bs h = rw (le→leb (i + w) (length bs) h) (Safe-ok _)

-- a numeral place within a guard's numeral length
pub within : (n i : ℕ) (bs : List ℕ) → n ≤ length bs → ltb i n ≡ true → i < length bs
within n i bs h k = ground arith

pub within_le : (n i : ℕ) (bs : List ℕ) → n ≤ length bs → leb i n ≡ true → i ≤ length bs
within_le n i bs h k = ground arith

pub ruleset safe_rules = (
  Safe-ok, Safe-err, Safe-bind, Safe-if, Safe-ok_or, Safe-at_least, Safe-byte_at, Safe-slice_at,
  Safe-word_at, within, within_le,
)
