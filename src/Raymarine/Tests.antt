-- ===== src/Raymarine/Tests.antt =====
-- Packets on which the theorems on Raymarine radars are applied.
use mayara.Prelude.{
  ℕ, ◌≤◌, ◌<◌, ◌≡◌, ◌≢◌, ◌⊎◌, refl, true, false, none, List, [], ◌∷◌, ◌++◌, arith, length, take,
  replicate,
}
use mayara.Packet.{too_short, invalid_header, ok, err}
use mayara.Packet.Struct.{size_of, layout}
use mayara.Packet.Discovery.{raymarine}
use mayara.Packet.Head.{int_fields}
use mayara.Packet.Sample.{sample_bincode}
use mayara.Raymarine.Spoke.{
  quantum_pixels, rd_pixels, decompress_quantum_spoke, decompress_rd_spoke, push_run,
  decompress_loop,
}
use mayara.Raymarine.Spoke.Runs.{Reading, expand, decompress_spoke_lem}
use mayara.Raymarine.Frames.{quantum_frame_header, rd_frame_header}
use mayara.Raymarine.Status.{ParsedRdStatus, parse_rd_status}
use mayara.Raymarine.Status.Reports.{HasRdShape}
use mayara.Raymarine.Status.Rd.{head_word, rd_expected, parse_rd_status_lem}
use mayara.Raymarine.Beacons.{
  beacon_36, beacon_56, beacon_36_size, beacon_56_size, parse_beacon_response,
}
use mayara.Raymarine.Beacons.Ports.{beacon_36_values, parse_beacon_response_lem}

-- The structs have the sizes that the code names.
quantum_header_size : size_of quantum_frame_header ≡ 20
quantum_header_size = refl

rd_header_size : size_of rd_frame_header ≡ 32
rd_header_size = refl

beacon_36_fits : size_of beacon_36 ≡ beacon_36_size
beacon_36_fits = refl

beacon_56_fits : size_of beacon_56 ≡ beacon_56_size
beacon_56_fits = refl

-- a byte, a run of three, and an escape that is cut off
abbrev line : List ℕ
line = 0x21 ∷ 0x5c ∷ 3 ∷ 0x40 ∷ 0x5c ∷ 7 ∷ []

line_pixels : decompress_rd_spoke line false 6 ≡ 1 ∷ 2 ∷ 0 ∷ 4 ∷ 0 ∷ 4 ∷ []
unfolding decompress_rd_spoke decompress_loop push_run
line_pixels = refl

decompress_spoke_lem_example :
    (r : Reading line) × (decompress_quantum_spoke line (λ b. b) 3
      ≡ take 3 (expand (quantum_pixels (λ b. b)) r.tokens))
    × (decompress_rd_spoke line true 3 ≡ take 3 (expand (rd_pixels true) r.tokens))
decompress_spoke_lem_example = decompress_spoke_lem line (λ b. b) true 3

abbrev status_report : List ℕ
status_report = 0x01 ∷ 0x88 ∷ 0x01 ∷ 0x00 ∷ replicate 246 7

parse_rd_status_lem_example :
    ((length status_report < 250)
      × (parse_rd_status status_report ≡ err (too_short 250 (length status_report))))
    ⊎ (((250 ≤ length status_report)
          × (head_word status_report ≢ 0x010001)
          × (head_word status_report ≢ 0x018801)
          × (parse_rd_status status_report
              ≡ err (invalid_header rd_expected (take 4 status_report))))
        ⊎ (((250 ≤ length status_report)
              × (head_word status_report ≡ 0x010001)
              × ((s : ParsedRdStatus) × (parse_rd_status status_report ≡ ok s)
                  × HasRdShape false s))
            ⊎ ((250 ≤ length status_report)
                × (head_word status_report ≡ 0x018801)
                × ((s : ParsedRdStatus) × (parse_rd_status status_report ≡ ok s)
                    × HasRdShape true s))))
parse_rd_status_lem_example = parse_rd_status_lem status_report

parse_beacon_response_lem_example :
    parse_beacon_response sample_bincode
      (layout (int_fields beacon_36 (beacon_36_values 77 0x28 0x0A000001 5800 0x0A000002 5801 0))
        ++ [])
      (0x31 ∷ [])
    ≡ ok (record {
      brand = raymarine;
      model = none;
      name = 0x30 ∷ 0x30 ∷ 0x30 ∷ 0x30 ∷ 0x30 ∷ 0x30 ∷ 0x34 ∷ 0x44 ∷ [];
      address = 0x31 ∷ [];
      data_port = 5800;
      command_port = 5801;
      spokes_per_revolution = 250;
      max_spoke_len = 252;
      pixel_values = 128;
      serial_number = none;
      nic_address = none;
      suffix = none;
      data_address = none;
      report_address = none;
      send_address = none;
    })
parse_beacon_response_lem_example =
    parse_beacon_response_lem sample_bincode 77 0x28 0x0A000001 5800 0x0A000002 5801 0 []
      (0x31 ∷ []) (omega arith) (omega arith) (omega arith) (omega arith) (omega arith)
