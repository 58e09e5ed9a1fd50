-- ===== src/Raymarine/Spoke.antt =====
-- The spoke data of Quantum and RD radars: `decompress_quantum_spoke` and `decompress_rd_spoke`.
pub mod Runs
pub mod Pixels
use mayara.Prelude.{
  ℕ, zero, suc, ◌/◌, ◌%◌, Bool, true, false, List, [], ◌∷◌, ◌++◌, if◌then◌else◌, ◌==◌, take,
}

-- the byte in front of a run
abbrev pub escape : ℕ
escape = 0x5c

-- `for _ in 0..count { unpacked.push(..) }`, where a byte pushes one pixel or two
unfoldable pub push_run : ℕ → List ℕ → List ℕ → List ℕ
push_run zero pixels unpacked = unpacked
push_run (suc n) pixels unpacked = push_run n pixels (unpacked ++ pixels)

-- `doppler_lookup[pixel]`
abbrev pub quantum_pixels : (ℕ → ℕ) → ℕ → List ℕ
quantum_pixels doppler_lookup pixel = doppler_lookup pixel ∷ []

-- `data[offset] >> 1` of an HD radar; else `& 0x0f` and then `>> 4`
abbrev pub rd_pixels : Bool → ℕ → List ℕ
rd_pixels true b = b / 2 ∷ []
rd_pixels false b = b % 16 ∷ (b / 16 ∷ [])

-- `Model::pixel_values`, from the model's `hd`
abbrev pub pixel_values : Bool → ℕ
pixel_values true = 128
pixel_values false = 16

-- The `while offset < data.len()` of both, from what is left of the data. An escape with less than two
-- bytes behind it ends the loop.
unfoldable pub decompress_loop : (ℕ → List ℕ) → List ℕ → List ℕ → List ℕ
decompress_loop pixels [] unpacked = unpacked
decompress_loop pixels (b ∷ []) unpacked = if b == escape then unpacked else unpacked ++ pixels b
decompress_loop pixels (b ∷ (c ∷ [])) unpacked =
    let rest = decompress_loop pixels (c ∷ []) (unpacked ++ pixels b) in
    if b == escape then unpacked else rest
decompress_loop pixels (b ∷ (c ∷ (v ∷ bs))) unpacked =
    let run = decompress_loop pixels bs (push_run c (pixels v) unpacked) in
    let rest = decompress_loop pixels (c ∷ (v ∷ bs)) (unpacked ++ pixels b) in
    if b == escape then run else rest

unfoldable pub decompress_quantum_spoke : List ℕ → (ℕ → ℕ) → ℕ → List ℕ
decompress_quantum_spoke bs doppler_lookup returns_per_line =
    take returns_per_line (decompress_loop (quantum_pixels doppler_lookup) bs [])

unfoldable pub decompress_rd_spoke : List ℕ → Bool → ℕ → List ℕ
decompress_rd_spoke bs is_hd returns_per_line =
    take returns_per_line (decompress_loop (rd_pixels is_hd) bs [])
