-- ===== src/Raymarine/Frames.antt =====
-- The frame headers of Quantum and RD radars.
pub mod Headers
use mayara.Prelude.{
  ℕ, ◌%◌, Bool, true, false, ◌&&◌, ◌||◌, not, List, [], ◌∷◌, if◌then◌else◌, ◌==◌, slice,
}
use mayara.Packet.{ParseError, invalid_header, Outcome, ok, err, ◌>>=◌, at_least, slice_at}
use mayara.Packet.Struct.{Bincode, int_field}

-- the fields of `QuantumFrameHeader`
abbrev pub quantum_frame_header : List ℕ
quantum_frame_header = 4 ∷ (2 ∷ (2 ∷ (2 ∷ (2 ∷ (2 ∷ (2 ∷ (2 ∷ (2 ∷ []))))))))

pub record ParsedQuantumFrame : Type 0 where
  pub seq_num : ℕ
  pub scan_len : ℕ
  pub num_spokes : ℕ
  pub returns_per_range : ℕ
  pub azimuth : ℕ
  pub data_len : ℕ

-- the fields of `RdFrameHeader`
abbrev pub rd_frame_header : List ℕ
rd_frame_header = 4 ∷ (4 ∷ (4 ∷ (4 ∷ (4 ∷ (4 ∷ (4 ∷ (4 ∷ [])))))))

pub record ParsedRdFrame : Type 0 where
  pub nspokes : ℕ
  pub is_hd : Bool

-- The 16-bit fields go through `to_le_bytes` and back, which changes nothing.
unfoldable pub quantum_frame : List (List ℕ) → ParsedQuantumFrame
quantum_frame header = record {
  seq_num = int_field 1 header;
  scan_len = int_field 3 header;
  num_spokes = int_field 4 header;
  returns_per_range = int_field 6 header;
  azimuth = int_field 7 header;
  data_len = int_field 8 header;
}

-- `field01`, `fieldx_1` and `fieldx_3` of a frame header
unfoldable pub is_rd_frame : List (List ℕ) → Bool
is_rd_frame header =
    (int_field 0 header == 0x00010003)
    && (int_field 2 header == 0x0000001c)
    && (int_field 6 header == 0x00000001)

unfoldable pub rd_frame : List (List ℕ) → ParsedRdFrame
rd_frame header = record { nspokes = int_field 3 header; is_hd = int_field 7 header == 0x400 }

module _ (bin : Bincode) where
  unfoldable pub parse_quantum_frame_header : List ℕ → Outcome ParsedQuantumFrame
  parse_quantum_frame_header bs = at_least 20 bs do
    head ← slice_at 0 20 bs
    header ← bin.deserialize quantum_frame_header head
    ok (quantum_frame header)

  unfoldable pub parse_rd_frame_header : List ℕ → Outcome ParsedRdFrame
  parse_rd_frame_header bs = at_least 32 bs do
    head ← slice_at 0 32 bs
    header ← bin.deserialize rd_frame_header head
    (if not (is_rd_frame header)
        then err
            (invalid_header (0x03 ∷ (0x00 ∷ (0x01 ∷ (0x00 ∷ [])))) (int_field 0 header % 256 ∷ []))
        else ok (rd_frame header))
