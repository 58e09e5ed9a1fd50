-- ===== src/Furuno/Tests.antt =====
-- Packets on which the theorems on spoke frames are applied.
use mayara.Prelude.{ℕ, ◌≤◌, ◌<◌, ◌≡◌, ◌⊎◌, true, false, List, [], ◌∷◌, arith, length}
use mayara.Packet.{ParseError}
use mayara.Furuno.Spoke.{
  ok, err, SpokeFrameHeader, ParsedSpoke, is_spoke_frame, parse_spoke_header, parse_spoke_frame,
  decode_encoding_1, decode_encoding_2, decode_encoding_3,
}
use mayara.Furuno.Spoke.Runs.{decoders_expand}
use mayara.Furuno.Spoke.FrameLoop.{IsFrame, parse_spoke_frame_lem}

-- one sweep of encoding 1 and of five pixels: a strength, a run of three and one more
abbrev packet : List ℕ
packet =
    2 ∷ 0 ∷ 0 ∷ 0 ∷ 0 ∷ 0 ∷ 0 ∷ 0 ∷ 0 ∷ 2 ∷ 5 ∷ 8 ∷ 3 ∷ 0 ∷ 0 ∷ 0 ∷ 16 ∷ 1 ∷ 0 ∷ 0 ∷ 40 ∷ 7 ∷ 80 ∷ 0
    ∷ []

parse_spoke_frame_lem_example :
    (is_spoke_frame packet ≡ false)
      × ((e : ParseError) × (parse_spoke_frame packet [] ≡ (err e, [])))
    ⊎ (is_spoke_frame packet ≡ true)
      × ((h : SpokeFrameHeader) × (out : List ParsedSpoke × List ℕ) × (parse_spoke_header packet
            ≡ ok h)
          × (parse_spoke_frame packet [] ≡ (ok (out.0), out.1))
          × IsFrame h out
          × (length (out.0) ≤ h.sweep_count)
          × (h.sweep_count < 128)
          × (h.sweep_len < 2048))
parse_spoke_frame_lem_example = parse_spoke_frame_lem packet [] (omega arith) tt

decoders_expand_example :
    ((decode_encoding_1 (40 ∷ 7 ∷ 80 ∷ 0 ∷ []) 5).0 ≡ 40 ∷ 40 ∷ 40 ∷ 40 ∷ 80 ∷ [])
    × ((decode_encoding_2 (40 ∷ 7 ∷ 80 ∷ 0 ∷ []) (1 ∷ 2 ∷ 3 ∷ []) 5).0 ≡ 40 ∷ 2 ∷ 3 ∷ 0 ∷ 80 ∷ [])
    × ((decode_encoding_3 (40 ∷ 7 ∷ 80 ∷ 0 ∷ []) (1 ∷ 2 ∷ 3 ∷ []) 5).0 ≡ 40 ∷ 40 ∷ 80 ∷ 0 ∷ [])
decoders_expand_example = decoders_expand (40 ∷ 7 ∷ 80 ∷ 0 ∷ []) (1 ∷ 2 ∷ 3 ∷ []) 5
