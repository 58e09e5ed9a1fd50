-- ===== src/Raymarine/Spoke/Pixels.antt =====
-- The length of a decompressed line and the values of its pixels.
use mayara.Prelude.{
  ℕ, zero, suc, ◌<◌, ◌≤◌, Bool, true, false, List, [], ◌∷◌, ◌++◌, ◌==◌, take, length, arith,
  Bool-cases, inl, inr, IsByte, All, length-take,
}
use mayara.Raymarine.Spoke.{
  escape, push_run, decompress_loop, rd_pixels, pixel_values, decompress_rd_spoke,
}

module _ (P : ℕ → Type 0) where
  All-append : (xs ys : List ℕ) → All P xs → All P ys → All P (xs ++ ys)
  All-append [] ys h k = k
  All-append (x ∷ xs) ys h k = (h.0, All-append xs ys h.1 k)

  All-take : (n : ℕ) (xs : List ℕ) → All P xs → All P (take n xs)
  All-take zero xs h = tt
  All-take (suc n) [] h = tt
  All-take (suc n) (x ∷ xs) h = (h.0, All-take n xs h.1)

  All-push_run : (n : ℕ) (ps out : List ℕ) → All P ps → All P out → All P (push_run n ps out)
  unfolding push_run
  All-push_run zero ps out h k = k
  All-push_run (suc n) ps out h k = All-push_run n ps (out ++ ps) h (All-append out ps k h)

  module _ (pixels : ℕ → List ℕ) (each : (b : ℕ) → IsByte b → All P (pixels b)) where
    All-decompress_loop :
        (bs out : List ℕ) → All IsByte bs → All P out → All P (decompress_loop pixels bs out)
    unfolding decompress_loop
    All-decompress_loop [] out h k = k
    All-decompress_loop (b ∷ []) out h k = elim (Bool-cases (b == escape)) [
      | inl e ↦ rw e k
      | inr e ↦ rw e (All-append out (pixels b) k (each b h.0))
    ]
    All-decompress_loop (b ∷ (c ∷ [])) out h k = elim (Bool-cases (b == escape)) [
      | inl e ↦ rw e k
      | inr e ↦ rw e (
          All-decompress_loop (c ∷ []) (out ++ pixels b) h.1
            (All-append out (pixels b) k (each b h.0)))
    ]
    All-decompress_loop (b ∷ (c ∷ (v ∷ bs))) out h k = elim (Bool-cases (b == escape)) [
      | inl e ↦ rw e (
          All-decompress_loop bs (push_run c (pixels v) out) h.1.1.1
            (All-push_run c (pixels v) out (each v h.1.1.0) k))
      | inr e ↦ rw e (
          All-decompress_loop (c ∷ (v ∷ bs)) (out ++ pixels b) h.1
            (All-append out (pixels b) k (each b h.0)))
    ]

rd_pixels_lem :
    (is_hd : Bool) (b : ℕ) → IsByte b → All (λ p. p < pixel_values is_hd) (rd_pixels is_hd b)
rd_pixels_lem true b h = (omega arith, tt)
rd_pixels_lem false b h = (omega arith, (omega arith, tt))

-- A line of an RD radar that is decompressed from bytes has at most the requested length, and its
-- pixels are below 128 for an HD radar and below 16 for the others.
pub decompress_rd_spoke_bounds :
    (bs : List ℕ) (is_hd : Bool) (returns_per_line : ℕ)
    → All IsByte bs
    → (length (decompress_rd_spoke bs is_hd returns_per_line) ≤ returns_per_line)
      × All (λ p. p < pixel_values is_hd) (decompress_rd_spoke bs is_hd returns_per_line)
unfolding decompress_rd_spoke
decompress_rd_spoke_bounds bs is_hd n h =
    let P = λ (p : ℕ). p < pixel_values is_hd in
    let line = decompress_loop (rd_pixels is_hd) bs [] in
    (
      omega (arith, length-take n line),
      All-take P n line (All-decompress_loop P (rd_pixels is_hd) (rd_pixels_lem is_hd) bs [] h tt),
    )
