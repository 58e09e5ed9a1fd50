-- ===== src/Packet/Struct.antt =====
-- The packed structs that `bincode::deserialize` fills from a packet: byte arrays and little-endian
-- integers, one behind the other.
use mayara.Prelude.{
  ℕ, zero, suc, ◌+◌, ◌≤◌, ◌≡◌, ◌∙◌, sym, ap, refl, List, [], ◌∷◌, ◌++◌, arith, length, take, drop,
  from_le_bytes, length-append, take-append, drop-append,
}
use mathlib.Core.List.{append-nil, append_assoc}
use mayara.Packet.{Outcome, ok}
use mayara.Packet.Safe.{Safe, Safe-ok}

-- A struct's layout: the widths of its fields in bytes.
abbrev pub size_of : List ℕ → ℕ
size_of [] = 0
size_of (w ∷ ws) = w + size_of ws

-- The bytes of its fields in a row of bytes.
abbrev pub fields : List ℕ → List ℕ → List (List ℕ)
fields [] bs = []
fields (w ∷ ws) bs = take w bs ∷ fields ws (drop w bs)

-- `bincode::deserialize` at a struct with `ws` for its layout. It is documented to read the fields
-- in their order, each as its bytes, with nothing in between, and to ignore what follows them.
pub record Bincode : Type 0 where
  pub deserialize : List ℕ → List ℕ → Outcome (List (List ℕ))
  pub deserialize_lem :
      (ws bs : List ℕ) → size_of ws ≤ length bs → deserialize ws bs ≡ ok (fields ws bs)

-- A field by its place.
abbrev pub field : ℕ → List (List ℕ) → List ℕ
field i [] = []
field zero (c ∷ cs) = c
field (suc i) (c ∷ cs) = field i cs

-- An integer field by its place.
abbrev pub int_field : ℕ → List (List ℕ) → ℕ
int_field i cs = from_le_bytes (field i cs)

pub Safe-deserialize :
    (bin : Bincode) (ws bs : List ℕ) → size_of ws ≤ length bs → Safe (bin.deserialize ws bs)
Safe-deserialize bin ws bs h = rw (bin.deserialize_lem ws bs h) (Safe-ok _)

-- The bytes of a struct from those of its fields.
abbrev pub layout : List (List ℕ) → List ℕ
layout [] = []
layout (c ∷ cs) = c ++ layout cs

-- Every field has its width.
abbrev pub Fits : List ℕ → List (List ℕ) → Type 0
Fits [] [] = Unit
Fits (w ∷ ws) (c ∷ cs) = (length c ≡ w) × Fits ws cs
Fits _ _ = ⊥

pub length-layout :
    (ws : List ℕ) (cs : List (List ℕ)) → Fits ws cs → length (layout cs) ≡ size_of ws
length-layout [] [] h = refl
length-layout [] (c ∷ cs) h = elim h [ ]
length-layout (w ∷ ws) [] h = elim h [ ]
length-layout (w ∷ ws) (c ∷ cs) h =
    omega (arith, length-append c (layout cs), h.0, length-layout ws cs h.1)

pub fields-layout :
    (ws : List ℕ) (cs : List (List ℕ)) (rest : List ℕ)
    → Fits ws cs
    → fields ws (layout cs ++ rest) ≡ cs
fields-layout [] [] rest h = refl
fields-layout [] (c ∷ cs) rest h = elim h [ ]
fields-layout (w ∷ ws) [] rest h = elim h [ ]
fields-layout (w ∷ ws) (c ∷ cs) rest h = rw (
  sym h.0,
  append_assoc c (layout cs) rest,
  take-append c (layout cs ++ rest),
  drop-append c (layout cs ++ rest),
  fields-layout ws cs rest h.1,
)

-- A struct of `size` bytes that a parser cuts from the packet before it reads it.
pub deserialize-layout :
    (bin : Bincode) (ws : List ℕ) (cs : List (List ℕ)) (rest : List ℕ)
    → Fits ws cs
    → bin.deserialize ws (take (size_of ws) (layout cs ++ rest)) ≡ ok cs
deserialize-layout bin ws cs rest h =
    let n : length (layout cs) ≡ size_of ws = length-layout ws cs h in
    let cut : take (size_of ws) (layout cs ++ rest) ≡ layout cs ++ [] =
      ap (λ k. take k (layout cs ++ rest)) (sym n)
      ∙ take-append (layout cs) rest
      ∙ sym (append-nil (layout cs)) in
    let room : size_of ws ≤ length (layout cs ++ []) =
      omega (arith, length-append (layout cs) []) in
    rw cut (bin.deserialize_lem ws (layout cs ++ []) room ∙ ap ok (fields-layout ws cs [] h))
