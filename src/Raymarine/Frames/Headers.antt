-- ===== src/Raymarine/Frames/Headers.antt =====
-- Frame headers as they are laid out in a packet, and what the parsers make of them.
use mayara.Prelude.{
  ℕ, ◌<◌, ◌^◌, ◌%◌, ◌≡◌, refl, ◌∙◌, ◌&&◌, not, List, [], ◌∷◌, ◌++◌, ◌==◌, if◌then◌else◌,
  from_le_bytes-to_le_bytes, Bool-cases, inl, inr,
}
use mayara.Packet.{invalid_header, ok, err}
use mayara.Packet.Struct.{Bincode, layout, int_field}
use mayara.Packet.Head.{int_fields, read_head}
use mayara.Raymarine.Frames.{
  quantum_frame_header, ParsedQuantumFrame, quantum_frame, parse_quantum_frame_header,
  rd_frame_header, rd_frame, is_rd_frame, parse_rd_frame_header,
}

-- The fields of a Quantum header: the parsed ones, and the three that the parser passes over.
abbrev pub quantum_values : ℕ → ℕ → ℕ → ParsedQuantumFrame → List ℕ
quantum_values frame_type something_1 something_3 f =
    frame_type
    ∷ (f.seq_num
        ∷ (something_1
            ∷ (f.scan_len
                ∷ (f.num_spokes
                    ∷ (something_3 ∷ (f.returns_per_range ∷ (f.azimuth ∷ (f.data_len ∷ []))))))))

abbrev pub IsFrame : ParsedQuantumFrame → Type 0
IsFrame f =
    (f.seq_num < 2 ^ 16)
    × (f.scan_len < 2 ^ 16)
    × (f.num_spokes < 2 ^ 16)
    × (f.returns_per_range < 2 ^ 16)
    × (f.azimuth < 2 ^ 16)
    × (f.data_len < 2 ^ 16)

-- A Quantum frame header of 16-bit values, laid out in front of anything, is read back: the sequence
-- number, the scan length, the numbers of spokes and returns, the azimuth and the data length.
pub parse_quantum_frame_header_lem :
    (bin : Bincode) (frame_type something_1 something_3 : ℕ) (frame : ParsedQuantumFrame)
    (rest : List ℕ)
    → IsFrame frame
    → parse_quantum_frame_header bin (
        layout (
          int_fields quantum_frame_header (quantum_values frame_type something_1 something_3 frame))
        ++ rest)
      ≡ ok frame
unfolding parse_quantum_frame_header quantum_frame
parse_quantum_frame_header_lem bin t s1 s3 frame rest (h0, h1, h2, h3, h4, h5) =
    let back = λ (v : ℕ) (h : v < 2 ^ 16). from_le_bytes-to_le_bytes 2 v h in
    read_head bin quantum_frame_header (quantum_values t s1 s3 frame) rest
      (λ header. ok (quantum_frame header))
    ∙ (λ i. ok (record {
      seq_num = back frame.seq_num h0 i;
      scan_len = back frame.scan_len h1 i;
      num_spokes = back frame.num_spokes h2 i;
      returns_per_range = back frame.returns_per_range h3 i;
      azimuth = back frame.azimuth h4 i;
      data_len = back frame.data_len h5 i;
    }))

-- An RD frame header of 32-bit values, laid out in front of anything: where the three marks are not what
-- the protocol says the packet is refused with the low byte of the first; else the number of
-- spokes is read back, and the radar is HD exactly if the last field is 0x400.
pub parse_rd_frame_header_lem :
    (bin : Bincode) (field01 zero_1 fieldx_1 nspokes spoke_count zero_3 fieldx_3 fieldx_4 : ℕ)
    (rest : List ℕ)
    → field01 < 2 ^ 32
    → fieldx_1 < 2 ^ 32
    → nspokes < 2 ^ 32
    → fieldx_3 < 2 ^ 32
    → fieldx_4 < 2 ^ 32
    → parse_rd_frame_header bin (
        layout (
          int_fields rd_frame_header (
            field01
            ∷ (zero_1
                ∷ (fieldx_1
                    ∷ (nspokes ∷ (spoke_count ∷ (zero_3 ∷ (fieldx_3 ∷ (fieldx_4 ∷ [])))))))))
        ++ rest)
      ≡ (if (field01 == 0x00010003) && (fieldx_1 == 0x0000001c) && (fieldx_3 == 0x00000001)
          then ok (record { nspokes = nspokes; is_hd = fieldx_4 == 0x400 })
          else err (invalid_header (0x03 ∷ (0x00 ∷ (0x01 ∷ (0x00 ∷ [])))) (field01 % 256 ∷ [])))
unfolding parse_rd_frame_header rd_frame is_rd_frame
parse_rd_frame_header_lem bin f1 z1 x1 n c z3 x3 x4 rest h0 h1 h2 h3 h4 =
    let back = λ (v : ℕ) (h : v < 2 ^ 32). from_le_bytes-to_le_bytes 4 v h in
    let vs = f1 ∷ (z1 ∷ (x1 ∷ (n ∷ (c ∷ (z3 ∷ (x3 ∷ (x4 ∷ []))))))) in
    read_head bin rd_frame_header vs rest (λ header.
      if not (is_rd_frame header)
      then err
          (invalid_header (0x03 ∷ (0x00 ∷ (0x01 ∷ (0x00 ∷ [])))) (int_field 0 header % 256 ∷ []))
      else ok (rd_frame header))
    ∙ (rw (back f1 h0, back x1 h1, back n h2, back x3 h3, back x4 h4)
        (elim (Bool-cases ((f1 == 0x00010003) && (x1 == 0x0000001c) && (x3 == 0x00000001))) [
          | inl e ↦ rw e refl
          | inr e ↦ rw e refl
        ]))
