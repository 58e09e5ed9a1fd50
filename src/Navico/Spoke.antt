-- ===== src/Navico/Spoke.antt =====
-- Spoke headers, and the pixels of spokes.
pub mod Nibbles
pub mod Headers
use mayara.Prelude.{
  ℕ, ◌*◌, ◌/◌, ◌%◌, ◌^◌, Bool, true, false, ◌&&◌, ◌||◌, not, List, [], ◌∷◌, Option, if◌then◌else◌,
  ◌==◌,
}
use mayara.Packet.{invalid_packet, Outcome, ok, err, ◌>>=◌, at_least, slice_at}
use mayara.Packet.Struct.{Bincode, int_field}
use mayara.Navico.{DopplerMode, no_doppler, both, approaching, extract_heading}

-- the fields of `Br4gSpokeHeader` and of `Br24SpokeHeader`
abbrev pub br4g_spoke_header : List ℕ
br4g_spoke_header = 1 ∷ (1 ∷ (2 ∷ (2 ∷ (2 ∷ (2 ∷ (2 ∷ (2 ∷ (2 ∷ (4 ∷ (4 ∷ []))))))))))

abbrev pub br24_spoke_header : List ℕ
br24_spoke_header = 1 ∷ (1 ∷ (2 ∷ (4 ∷ (2 ∷ (2 ∷ (4 ∷ (2 ∷ (2 ∷ (4 ∷ [])))))))))

-- `SPOKE_HEADER_SIZE`
abbrev pub spoke_header_size : ℕ
spoke_header_size = 24

-- the two tests at the head of both parsers
unfoldable pub checked : List (List ℕ) → Outcome (ℕ × ℕ × Option ℕ) → Outcome (ℕ × ℕ × Option ℕ)
checked header rest =
    if not (int_field 0 header == spoke_header_size)
    then err invalid_packet
    else (if not (int_field 1 header == 0x02) && not (int_field 1 header == 0x12)
        then err invalid_packet
        else rest)

-- the range in meters of a 4G or HALO header; the product is of 32 bits
unfoldable pub range_4g : ℕ → ℕ → ℕ
range_4g large_range small_range =
    if large_range == 0x80
    then (if small_range == 0xffff then 0 else small_range / 4)
    else large_range * small_range % 2 ^ 32 / 512

unfoldable pub spoke_4g : List (List ℕ) → ℕ × ℕ × Option ℕ
spoke_4g header =
    let heading = int_field 6 header in
    let angle = int_field 5 header / 2 in
    let range = range_4g (int_field 4 header) (int_field 7 header) in
    (range, angle, extract_heading heading)

-- `scale` stands for the product with `BR24_RANGE_FACTOR`, in floating point.
unfoldable pub spoke_br24 : (ℕ → ℕ) → List (List ℕ) → ℕ × ℕ × Option ℕ
spoke_br24 scale header =
    let heading = int_field 5 header in
    let angle = int_field 4 header / 2 in
    let raw_range = int_field 6 header % 2 ^ 24 in (scale raw_range, angle, extract_heading heading)

module _ (bin : Bincode) where
  unfoldable pub parse_4g_spoke_header : List ℕ → Outcome (ℕ × ℕ × Option ℕ)
  parse_4g_spoke_header bs = at_least spoke_header_size bs do
    head ← slice_at 0 spoke_header_size bs
    header ← bin.deserialize br4g_spoke_header head
    checked header (ok (spoke_4g header))

  unfoldable pub parse_br24_spoke_header : (ℕ → ℕ) → List ℕ → Outcome (ℕ × ℕ × Option ℕ)
  parse_br24_spoke_header scale bs = at_least spoke_header_size bs do
    head ← slice_at 0 spoke_header_size bs
    header ← bin.deserialize br24_spoke_header head
    checked header (ok (spoke_br24 scale header))

unfoldable pub unpack_spoke_data : List ℕ → List ℕ
unpack_spoke_data [] = []
unpack_spoke_data (byte ∷ packed) =
    let low = byte % 16 in let high = byte / 16 % 16 in low ∷ (high ∷ unpack_spoke_data packed)

-- the `match doppler_mode` of a pixel
unfoldable pub doppler_out : DopplerMode → ℕ → ℕ → ℕ → ℕ
doppler_out no_doppler toward away pixel = pixel
doppler_out both toward away pixel =
    if pixel == 0x0f then toward else (if pixel == 0x0e then away else pixel)
doppler_out approaching toward away pixel = if pixel == 0x0f then toward else pixel

-- `approaching_value` is `toward` here, and `receding_value` is `away`.
unfoldable pub unpack_spoke_data_doppler : List ℕ → DopplerMode → ℕ → ℕ → List ℕ
unpack_spoke_data_doppler [] mode toward away = []
unpack_spoke_data_doppler (byte ∷ packed) mode toward away =
    let low = byte % 16 in
    let high = byte / 16 % 16 in
    let low_out = doppler_out mode toward away low in
    let high_out = doppler_out mode toward away high in
    low_out ∷ (high_out ∷ unpack_spoke_data_doppler packed mode toward away)
