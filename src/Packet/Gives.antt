-- ===== src/Packet/Gives.antt =====
-- Parsers that return a value of which something holds.
use mayara.Prelude.{ℕ, ◌+◌, ◌≤◌, ◌<◌, ◌≡◌, refl, List, length, le→leb}
use mayara.Packet.{Outcome, ok, ◌>>=◌, byte_at, word_at}
use mayara.Packet.Safe.{get_elem?_in_range, within, within_le}

pub record Gives {A : Type 0} (P : A → Type 0) (r : Outcome A) : Type 0 where
  pub value : A
  pub result : r ≡ ok value
  pub holds : P value

module _ {A : Type 0} (P : A → Type 0) where
  pub Gives-ok : (a : A) → P a → Gives P (ok a)
  Gives-ok a h = record { value = a; result = refl; holds = h }

  pub Gives-bind :
      {B : Type 0} (Q : B → Type 0) (m : Outcome B) (f : B → Outcome A)
      → Gives Q m
      → ((b : B) → Q b → Gives P (f b))
      → Gives P (m >>= f)
  Gives-bind Q m f g k = rw g.result (k g.value g.holds)

  pub Gives-byte_at :
      (i : ℕ) (bs : List ℕ) (f : ℕ → Outcome A)
      → i < length bs
      → ((b : ℕ) → Gives P (f b))
      → Gives P (byte_at i bs >>= f)
  unfolding byte_at
  Gives-byte_at i bs f h k =
      let (b, e) = get_elem?_in_range bs i h in
      let r : byte_at i bs ≡ ok b = rw (e, byte_at) refl in rw r (k b)

  pub Gives-word_at :
      (w i : ℕ) (bs : List ℕ) (f : ℕ → Outcome A)
      → i + w ≤ length bs
      → ((v : ℕ) → Gives P (f v))
      → Gives P (word_at w i bs >>= f)
  unfolding word_at
  Gives-word_at w i bs f h k = rw (le→leb (i + w) (length bs) h) (k _)

pub ruleset gives_rules = (Gives-ok, Gives-byte_at, Gives-word_at, within, within_le)
