-- ===== src/Packet/Head.antt =====
-- A struct of integers at the head of a packet.
use mayara.Prelude.{
  ℕ, ◌-◌, ◌≤◌, ◌≡◌, refl, ap, true, false, List, [], ◌∷◌, ◌++◌, arith, length, ltb, leb, take,
  to_le_bytes, length-to_le_bytes, length-append, length-take, slice,
}
use mayara.Packet.{Outcome, ok, ◌>>=◌, at_least, slice_at}
use mayara.Packet.Struct.{
  Bincode, layout, size_of, deserialize-layout, length-layout, Fits, Safe-deserialize,
}
use mayara.Packet.Safe.{Safe, Safe-bind, Safe-at_least}

-- The bytes of a struct of integers, from their widths and values.
abbrev pub int_fields : List ℕ → List ℕ → List (List ℕ)
int_fields [] vs = []
int_fields (w ∷ ws) [] = to_le_bytes w 0 ∷ int_fields ws []
int_fields (w ∷ ws) (v ∷ vs) = to_le_bytes w v ∷ int_fields ws vs

pub int_fields-Fits : (ws vs : List ℕ) → Fits ws (int_fields ws vs)
int_fields-Fits [] vs = tt
int_fields-Fits (w ∷ ws) [] = (length-to_le_bytes w 0, int_fields-Fits ws [])
int_fields-Fits (w ∷ ws) (v ∷ vs) = (length-to_le_bytes w v, int_fields-Fits ws vs)

-- A parser that checks the length, cuts the struct off and reads it.
pub read_head :
    {A : Type 0} (bin : Bincode) (ws vs rest : List ℕ) (f : List (List ℕ) → Outcome A)
    → (let bs = layout (int_fields ws vs) ++ rest in
        at_least
          (size_of ws)
          bs
          (slice_at 0 (size_of ws) bs >>= λ head. bin.deserialize ws head >>= f))
      ≡ f (int_fields ws vs)
unfolding at_least slice_at
read_head bin ws vs rest f =
    let cs = int_fields ws vs in
    let bs = layout cs ++ rest in
    let n : size_of ws ≤ length bs =
      omega (arith, length-append (layout cs) rest, length-layout ws cs (int_fields-Fits ws vs)) in
    let long : ltb (length bs) (size_of ws) ≡ false = ground arith in
    let room : leb (size_of ws) (length bs) ≡ true = ground arith in
    let cut : size_of ws - 0 ≡ size_of ws = omega arith in
    let head : slice_at 0 (size_of ws) bs ≡ ok (take (size_of ws) bs) =
      rw room (ap (λ k. ok (take k bs)) cut) in
    rw (long, head, deserialize-layout bin ws cs rest (int_fields-Fits ws vs)) refl

-- A struct that is cut from a packet of at least its size.
pub Safe-head :
    {A : Type 0} (bin : Bincode) (ws bs : List ℕ) (f : List (List ℕ) → Outcome A)
    → ((cs : List (List ℕ)) → Safe (f cs))
    → Safe (
        at_least
          (size_of ws)
          bs
          (slice_at 0 (size_of ws) bs >>= λ head. bin.deserialize ws head >>= f))
unfolding slice_at
Safe-head bin ws bs f h = Safe-at_least _ bs _ (λ n.
    let room : leb (size_of ws) (length bs) ≡ true = ground arith in
    let z : length (slice 0 (size_of ws) bs) ≡ size_of ws =
      omega (arith, length-take (size_of ws - 0) bs) in
    rw room
      (Safe-bind _ f (Safe-deserialize bin ws (slice 0 (size_of ws) bs) (omega (arith, z))) h))
