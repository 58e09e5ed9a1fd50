-- ===== src/Raymarine/Status.antt =====
-- The status reports of Quantum and RD radars.
pub mod Reports
pub mod Rd
use mayara.Prelude.{
  ℕ, zero, suc, ◌+◌, ◌*◌, ◌≤◌, ◌^◌, Bool, true, false, ◌&&◌, ◌||◌, not, List, [], ◌∷◌,
  if◌then◌else◌, ◌==◌, ltb, leb, length,
}
use mayara.Prelude.Int.{ℤ, pos, negsuc}
use mayara.Packet.{
  ParseError, invalid_header, Outcome, ok, err, ◌>>=◌, at_least, byte_at, word_at, is_set,
  as_signed,
}

pub record QuantumControlsPerMode : Type 0 where
  pub gain_auto : Bool
  pub gain : ℕ
  pub color_gain_auto : Bool
  pub color_gain : ℕ
  pub sea_auto : Bool
  pub sea : ℕ
  pub rain_enabled : Bool
  pub rain : ℕ

pub record ParsedQuantumStatus : Type 0 where
  pub status : ℕ
  pub bearing_offset : ℤ
  pub interference_rejection : ℕ
  pub range_index : ℕ
  pub mode : ℕ
  pub controls : List QuantumControlsPerMode
  pub target_expansion : ℕ
  pub mbs_enabled : Bool
  pub ranges : List ℕ

-- the controls of the mode whose eight bytes start at `base`
unfoldable pub controls_at : ℕ → List ℕ → Outcome QuantumControlsPerMode
controls_at base bs = do
  gain_auto ← byte_at base bs
  gain ← byte_at (base + 1) bs
  color_gain_auto ← byte_at (base + 2) bs
  color_gain ← byte_at (base + 3) bs
  sea_auto ← byte_at (base + 4) bs
  sea ← byte_at (base + 5) bs
  rain_enabled ← byte_at (base + 6) bs
  rain ← byte_at (base + 7) bs
  ok (record {
    gain_auto = is_set gain_auto;
    gain = gain;
    color_gain_auto = is_set color_gain_auto;
    color_gain = color_gain;
    sea_auto = is_set sea_auto;
    sea = sea;
    rain_enabled = is_set rain_enabled;
    rain = rain;
  })

-- `for i in 0..4`, the controls of `n` modes from `base` on
unfoldable pub all_controls : ℕ → ℕ → List ℕ → Outcome (List QuantumControlsPerMode)
all_controls zero base bs = ok []
all_controls (suc n) base bs = do
  c ← controls_at base bs
  cs ← all_controls n (base + 8) bs
  ok (c ∷ cs)

-- `for i in 0..20`: a word that the packet does not hold is left out.
unfoldable pub quantum_ranges : ℕ → ℕ → List ℕ → Outcome (List ℕ)
quantum_ranges zero offset bs = ok []
quantum_ranges (suc n) offset bs =
    let rest = quantum_ranges n (offset + 4) bs in
    if leb (offset + 4) (length bs)
    then (do range ← word_at 4 offset bs; ranges ← rest; ok (range ∷ ranges))
    else rest

unfoldable pub parse_quantum_status : List ℕ → Outcome ParsedQuantumStatus
parse_quantum_status bs = at_least 228 bs do
  status ← byte_at 4 bs
  bearing_offset ← word_at 2 14 bs
  interference_rejection ← byte_at 17 bs
  range_index ← byte_at 20 bs
  mode ← byte_at 21 bs
  controls ← all_controls 4 22 bs
  target_expansion ← byte_at 54 bs
  mbs_enabled ← byte_at 59 bs
  ranges ← quantum_ranges 20 148 bs
  ok (record {
    status = status;
    bearing_offset = as_signed 16 bearing_offset;
    interference_rejection = interference_rejection;
    range_index = range_index;
    mode = mode;
    controls = controls;
    target_expansion = target_expansion;
    mbs_enabled = is_set mbs_enabled;
    ranges = ranges;
  })

pub record ParsedRdStatus : Type 0 where
  pub ranges : List ℕ
  pub status : ℕ
  pub warmup_time : ℕ
  pub signal_strength : ℕ
  pub range_id : ℕ
  pub auto_gain : Bool
  pub gain : ℕ
  pub auto_sea : ℕ
  pub sea : ℕ
  pub rain_enabled : Bool
  pub rain : ℕ
  pub ftc_enabled : Bool
  pub ftc : ℕ
  pub auto_tune : Bool
  pub tune : ℕ
  pub bearing_offset : ℤ
  pub interference_rejection : ℕ
  pub target_expansion : ℕ
  pub mbs_enabled : Bool
  pub is_hd : Bool

-- `for i in 0..11`, `n` words from `offset` on
unfoldable pub rd_ranges : ℕ → ℕ → List ℕ → Outcome (List ℕ)
rd_ranges zero offset bs = ok []
rd_ranges (suc n) offset bs = do
  range ← word_at 4 offset bs
  ranges ← rd_ranges n (offset + 4) bs
  ok (range ∷ ranges)

-- the vector of the first four bytes in the error
unfoldable pub first_4 : List ℕ → Outcome (List ℕ)
first_4 bs = do
  a ← byte_at 0 bs
  b ← byte_at 1 bs
  c ← byte_at 2 bs
  d ← byte_at 3 bs
  ok (a ∷ (b ∷ (c ∷ (d ∷ []))))

-- the fields behind `field01`
unfoldable pub rd_status_fields : Bool → List ℕ → Outcome ParsedRdStatus
rd_status_fields is_hd bs = do
  ranges ← rd_ranges 11 4 bs
  status ← byte_at 180 bs
  warmup_time ← byte_at 184 bs
  signal_strength ← byte_at 185 bs
  range_id ← byte_at 193 bs
  auto_gain ← byte_at 196 bs
  gain ← word_at 4 200 bs
  auto_sea ← byte_at 204 bs
  sea ← byte_at 208 bs
  rain_enabled ← byte_at 209 bs
  rain ← byte_at 213 bs
  ftc_enabled ← byte_at 214 bs
  ftc ← byte_at 218 bs
  auto_tune ← byte_at 219 bs
  tune ← byte_at 223 bs
  bearing_offset ← word_at 2 224 bs
  interference_rejection ← byte_at 226 bs
  target_expansion ← byte_at 230 bs
  mbs_enabled ← byte_at 244 bs
  ok (record {
    ranges = ranges;
    status = status;
    warmup_time = warmup_time;
    signal_strength = signal_strength;
    range_id = range_id;
    auto_gain = is_set auto_gain;
    gain = gain;
    auto_sea = auto_sea;
    sea = sea;
    rain_enabled = is_set rain_enabled;
    rain = rain;
    ftc_enabled = is_set ftc_enabled;
    ftc = ftc;
    auto_tune = is_set auto_tune;
    tune = tune;
    bearing_offset = as_signed 16 bearing_offset;
    interference_rejection = interference_rejection;
    target_expansion = target_expansion;
    mbs_enabled = is_set mbs_enabled;
    is_hd = is_hd;
  })

unfoldable pub parse_rd_status : List ℕ → Outcome ParsedRdStatus
parse_rd_status bs = at_least 250 bs do
  field01 ← word_at 4 0 bs
  (if not (field01 == 0x010001) && not (field01 == 0x018801)
      then (do
        actual ← first_4 bs
        err (invalid_header (0x01 ∷ (0x00 ∷ (0x01 ∷ (0x00 ∷ [])))) actual))
      else rd_status_fields (field01 == 0x018801) bs)
