-- ===== src/Navico/Tests.antt =====
-- Packets on which the theorems on Navico radars are applied.
use mayara.Prelude.{ℕ, ◌<◌, ◌≡◌, refl, List, [], ◌∷◌, ◌++◌, arith, length, map, All, replicate}
use mayara.Packet.{ok}
use mayara.Packet.Struct.{size_of, layout}
use mayara.Packet.Head.{int_fields}
use mayara.Packet.Sample.{sample_bincode}
use mayara.Navico.{both, extract_heading}
use mayara.Navico.Reports.{
  report_01, report_02, report_03, report_04, report_06_68, report_06_74, report_08_base,
  report_08_extended,
}
use mayara.Navico.Spoke.{
  br4g_spoke_header, br24_spoke_header, parse_4g_spoke_header, unpack_spoke_data,
  unpack_spoke_data_doppler, doppler_out,
}
use mayara.Navico.Spoke.Nibbles.{pack, unpack_spoke_data_lem}
use mayara.Navico.Spoke.Headers.{header_values, parse_4g_spoke_header_lem}
use mayara.Navico.Beacons.{
  beacon_dual, beacon_single, br24_beacon, beacon_dual_size, beacon_single_size, beacon_br24_size,
  parse_beacon_response, parse_beacon_endpoints,
}
use mayara.Navico.Beacons.Agreement.{radars_found, endpoints_found, beacon_parsers_agree}

-- The structs have the sizes that the code names.
report_sizes :
    map size_of (
      report_01 ∷ report_02 ∷ report_03 ∷ report_04 ∷ report_06_68 ∷ report_06_74 ∷ report_08_base
      ∷ report_08_extended ∷ [])
    ≡ 18 ∷ 99 ∷ 129 ∷ 66 ∷ 68 ∷ 74 ∷ 18 ∷ 21 ∷ []
report_sizes = refl

header_sizes : map size_of (br4g_spoke_header ∷ br24_spoke_header ∷ []) ≡ 24 ∷ 24 ∷ []
header_sizes = refl

beacon_sizes :
    map size_of (beacon_dual ∷ beacon_single ∷ br24_beacon ∷ [])
    ≡ beacon_dual_size ∷ beacon_single_size ∷ beacon_br24_size ∷ []
beacon_sizes = refl

unpack_spoke_data_lem_example :
    (pack (unpack_spoke_data (0x2f ∷ 0xe1 ∷ [])) ≡ 0x2f ∷ 0xe1 ∷ [])
    × (length (unpack_spoke_data (0x2f ∷ 0xe1 ∷ [])) ≡ 4)
    × All (λ p. p < 16) (unpack_spoke_data (0x2f ∷ 0xe1 ∷ []))
    × (unpack_spoke_data_doppler (0x2f ∷ 0xe1 ∷ []) both 20 21
        ≡ map (doppler_out both 20 21) (unpack_spoke_data (0x2f ∷ 0xe1 ∷ [])))
unpack_spoke_data_lem_example =
    unpack_spoke_data_lem (0x2f ∷ 0xe1 ∷ []) both 20 21 (omega arith, (omega arith, tt))

parse_4g_spoke_header_lem_example :
    parse_4g_spoke_header sample_bincode (
      layout (int_fields br4g_spoke_header (header_values 24 0x02 0x40 2000 0x4123 512 0))
      ++ (1 ∷ []))
    ≡ ok (64, 1000, extract_heading 0x4123)
parse_4g_spoke_header_lem_example =
    parse_4g_spoke_header_lem sample_bincode 24 0x02 0x40 2000 0x4123 512 0 (1 ∷ []) (omega arith)
      (omega arith) (omega arith) (omega arith) (omega arith) (omega arith)

-- a dual beacon
abbrev beacon : List ℕ
beacon = 0x01 ∷ 0xB2 ∷ 0x31 ∷ 0x32 ∷ replicate 150 0

beacon_parsers_agree_example :
    radars_found (parse_beacon_response sample_bincode beacon [])
    ≡ endpoints_found (parse_beacon_endpoints sample_bincode beacon)
beacon_parsers_agree_example = beacon_parsers_agree sample_bincode beacon []
