-- ===== src/Raymarine/Safety.antt =====
-- No packet makes a parser panic.
use mayara.Prelude.{ℕ, List}
use mayara.Packet.Struct.{Bincode}
use mayara.Packet.Head.{Safe-head}
use mayara.Packet.Safe.{Safe, Safe-ok, safe_rules}
use mayara.Raymarine.Frames.{
  parse_quantum_frame_header, parse_rd_frame_header, quantum_frame_header, rd_frame_header,
}
use mayara.Raymarine.Beacons.{
  model_of, beacon_56_of, beacon_36_of, parse_beacon_56, parse_beacon_36, parse_beacon_response,
  beacon_36, beacon_56,
}

Safe-parse_quantum_frame_header :
    (bin : Bincode) (bs : List ℕ) → Safe (parse_quantum_frame_header bin bs)
unfolding parse_quantum_frame_header
Safe-parse_quantum_frame_header bin bs = Safe-head bin quantum_frame_header bs _ (λ cs. Safe-ok _)

Safe-parse_rd_frame_header : (bin : Bincode) (bs : List ℕ) → Safe (parse_rd_frame_header bin bs)
unfolding parse_rd_frame_header
Safe-parse_rd_frame_header bin bs = Safe-head bin rd_frame_header bs _ (λ cs. search safe_rules)

Safe-model_of : (subtype : ℕ) (name : List ℕ) → Safe (model_of subtype name)
unfolding model_of
Safe-model_of subtype name = search safe_rules

Safe-beacon_56_of : (cs : List (List ℕ)) → Safe (beacon_56_of cs)
unfolding beacon_56_of
Safe-beacon_56_of cs = search (safe_rules, Safe-model_of)

Safe-beacon_36_of : (cs : List (List ℕ)) → Safe (beacon_36_of cs)
unfolding beacon_36_of
Safe-beacon_36_of cs = search safe_rules

Safe-parse_beacon_56 : (bin : Bincode) (bs : List ℕ) → Safe (parse_beacon_56 bin bs)
unfolding parse_beacon_56
Safe-parse_beacon_56 bin bs = Safe-head bin beacon_56 bs _ Safe-beacon_56_of

Safe-parse_beacon_36 : (bin : Bincode) (bs : List ℕ) → Safe (parse_beacon_36 bin bs)
unfolding parse_beacon_36
Safe-parse_beacon_36 bin bs = Safe-head bin beacon_36 bs _ Safe-beacon_36_of

Safe-parse_beacon_response :
    (bin : Bincode) (bs source_addr : List ℕ) → Safe (parse_beacon_response bin bs source_addr)
unfolding parse_beacon_response
Safe-parse_beacon_response bin bs src =
    search (safe_rules, Safe-parse_beacon_56, Safe-parse_beacon_36)
