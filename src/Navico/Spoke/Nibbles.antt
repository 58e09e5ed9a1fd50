-- ===== src/Navico/Spoke/Nibbles.antt =====
-- The packing of two pixels in a byte.
use mayara.Prelude.{
  ℕ, ◌+◌, ◌*◌, ◌/◌, ◌%◌, ◌<◌, ◌≡◌, ap, refl, List, [], ◌∷◌, map, arith, length, IsByte, All,
}
use mayara.Navico.{DopplerMode}
use mayara.Navico.Spoke.{unpack_spoke_data, unpack_spoke_data_doppler, doppler_out}

-- Two pixels in a byte, the first of them in its low half.
abbrev pub pack : List ℕ → List ℕ
pack [] = []
pack (low ∷ []) = low ∷ []
pack (low ∷ (high ∷ pixels)) = (low + 16 * high) ∷ pack pixels

pack-unpack : (packed : List ℕ) → All IsByte packed → pack (unpack_spoke_data packed) ≡ packed
unfolding unpack_spoke_data
pack-unpack [] h = refl
pack-unpack (byte ∷ packed) h =
    let e : byte % 16 + 16 * (byte / 16 % 16) ≡ byte = omega (arith, h.0) in
    λ i. e i ∷ pack-unpack packed h.1 i

length-unpack : (packed : List ℕ) → length (unpack_spoke_data packed) ≡ 2 * length packed
unfolding unpack_spoke_data
length-unpack [] = refl
length-unpack (byte ∷ packed) = omega (arith, length-unpack packed)

unpack-All : (packed : List ℕ) → All (λ p. p < 16) (unpack_spoke_data packed)
unfolding unpack_spoke_data
unpack-All [] = tt
unpack-All (byte ∷ packed) = (omega arith, (omega arith, unpack-All packed))

unpack_doppler :
    (packed : List ℕ) (mode : DopplerMode) (toward away : ℕ)
    → unpack_spoke_data_doppler packed mode toward away
      ≡ map (doppler_out mode toward away) (unpack_spoke_data packed)
unfolding unpack_spoke_data unpack_spoke_data_doppler
unpack_doppler [] mode toward away = refl
unpack_doppler (byte ∷ packed) mode toward away =
    ap
      (λ t.
        doppler_out mode toward away (byte % 16)
        ∷ (doppler_out mode toward away (byte / 16 % 16) ∷ t))
      (unpack_doppler packed mode toward away)

-- Unpacked bytes are twice as many pixels, all below 16, which packed two by two give the bytes back; and
-- the unpacking for Doppler gives the same pixels, each through the map of the Doppler mode.
pub unpack_spoke_data_lem :
    (packed : List ℕ) (mode : DopplerMode) (toward away : ℕ)
    → All IsByte packed
    → (pack (unpack_spoke_data packed) ≡ packed)
      × (length (unpack_spoke_data packed) ≡ 2 * length packed)
      × All (λ p. p < 16) (unpack_spoke_data packed)
      × (unpack_spoke_data_doppler packed mode toward away
          ≡ map (doppler_out mode toward away) (unpack_spoke_data packed))
unpack_spoke_data_lem packed mode toward away h = (
  pack-unpack packed h,
  length-unpack packed,
  unpack-All packed,
  unpack_doppler packed mode toward away,
)
