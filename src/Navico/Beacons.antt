-- ===== src/Navico/Beacons.antt =====
-- The three beacons of Navico radars, and the two parsers of them.
pub mod Agreement
use mayara.Prelude.{
  ℕ, ◌+◌, ◌*◌, Bool, true, false, ◌&&◌, ◌||◌, not, List, [], ◌∷◌, ◌++◌, Option, none, some,
  if◌then◌else◌, ◌==◌, leb, ltb, length, get_or, slice, take,
}
use mayara.Packet.{
  ParseError, invalid_header, invalid_packet, invalid_string, too_short, Outcome, ok, err, ◌>>=◌,
  ok_or, at_least,
}
use mayara.Packet.Struct.{Bincode, field}
use mayara.Packet.Text.{c_string, show_u16, show_ip}
use mayara.Packet.Discovery.{Brand, navico, RadarDiscovery}
use mayara.Navico.{is_beacon_response, is_address_request}

-- `NetworkSocketAddrV4`
pub record NetworkSocketAddrV4 : Type 0 where
  pub addr : List ℕ
  pub port : List ℕ

unfoldable pub ip_string : NetworkSocketAddrV4 → List ℕ
ip_string a =
    show_ip (get_or a.addr 0 0) (get_or a.addr 1 0) (get_or a.addr 2 0) (get_or a.addr 3 0)

-- `port`, by `from_be_bytes`
abbrev pub port_of : NetworkSocketAddrV4 → ℕ
port_of a = get_or a.port 0 0 * 256 + get_or a.port 1 0

unfoldable pub as_string : NetworkSocketAddrV4 → List ℕ
as_string a = ip_string a ++ (0x3A ∷ show_u16 (port_of a))

-- the fields of `BeaconHeader`, of `BeaconRadar` and of the beacons, with the two of each address
abbrev pub beacon_header : List ℕ
beacon_header =
    2
    ∷ (16
        ∷ (4 ∷ (2 ∷ (12 ∷ (4 ∷ (2 ∷ (4 ∷ (4 ∷ (2 ∷ (10 ∷ (4 ∷ (2 ∷ (4 ∷ (4 ∷ (2 ∷ [])))))))))))))))

abbrev pub beacon_radar : List ℕ
beacon_radar = 10 ∷ (4 ∷ (2 ∷ (4 ∷ (4 ∷ (2 ∷ (4 ∷ (4 ∷ (2 ∷ []))))))))

abbrev pub beacon_single : List ℕ
beacon_single = beacon_header ++ beacon_radar

abbrev pub beacon_dual : List ℕ
beacon_dual = beacon_header ++ (beacon_radar ++ beacon_radar)

abbrev pub br24_beacon : List ℕ
br24_beacon =
    2
    ∷ (16
        ∷ (4
            ∷ (2
                ∷ (12
                    ∷ (4
                        ∷ (2
                            ∷ (4
                                ∷ (4
                                    ∷ (2
                                        ∷ (4
                                            ∷ (4
                                                ∷ (2
                                                    ∷ (10
                                                        ∷ (4
                                                            ∷ (2
                                                            ∷ (4
                                                            ∷ (4
                                                            ∷ (2
                                                            ∷ (4 ∷ (4 ∷ (2 ∷ [])))))))))))))))))))))

-- `BEACON_BR24_SIZE`, `BEACON_SINGLE_SIZE` and `BEACON_DUAL_SIZE`
abbrev pub beacon_br24_size : ℕ
beacon_br24_size = 98

abbrev pub beacon_single_size : ℕ
beacon_single_size = 114

abbrev pub beacon_dual_size : ℕ
beacon_dual_size = 150

-- the address in two fields from place `i` on
abbrev pub addr_at : ℕ → List (List ℕ) → NetworkSocketAddrV4
addr_at i beacon = record { addr = field i beacon; port = field (i + 1) beacon }

-- the three addresses of a radar
pub record Endpoints : Type 0 where
  pub data_addr : NetworkSocketAddrV4
  pub send_addr : NetworkSocketAddrV4
  pub report_addr : NetworkSocketAddrV4

-- those of `a` and `b` of a `BeaconDual`, or of `a` of a `BeaconSingle`
abbrev pub endpoints_a : List (List ℕ) → Endpoints
endpoints_a beacon = record {
  data_addr = addr_at 17 beacon;
  send_addr = addr_at 20 beacon;
  report_addr = addr_at 23 beacon;
}

abbrev pub endpoints_b : List (List ℕ) → Endpoints
endpoints_b beacon = record {
  data_addr = addr_at 26 beacon;
  send_addr = addr_at 29 beacon;
  report_addr = addr_at 32 beacon;
}

-- those of a `BR24Beacon`, which has them in another order
abbrev pub endpoints_br24 : List (List ℕ) → Endpoints
endpoints_br24 beacon = record {
  data_addr = addr_at 20 beacon;
  send_addr = addr_at 17 beacon;
  report_addr = addr_at 14 beacon;
}

pub record ParsedRadarEndpoints : Type 0 where
  pub suffix : Option (List ℕ)
  pub data_addr : List ℕ
  pub send_addr : List ℕ
  pub report_addr : List ℕ

pub record ParsedBeacon : Type 0 where
  pub serial_no : List ℕ
  pub radar_addr : List ℕ
  pub is_dual_range : Bool
  pub is_br24 : Bool
  pub radars : List ParsedRadarEndpoints

unfoldable pub parsed_endpoints : Option (List ℕ) → Endpoints → ParsedRadarEndpoints
parsed_endpoints suffix e = record {
  suffix = suffix;
  data_addr = as_string e.data_addr;
  send_addr = as_string e.send_addr;
  report_addr = as_string e.report_addr;
}

unfoldable pub discovery :
    Option (List ℕ) → List ℕ → List ℕ → Option (List ℕ) → Endpoints → RadarDiscovery
discovery model serial_no source_addr suffix e = record {
  brand = navico;
  model = model;
  name = serial_no;
  address = source_addr;
  data_port = port_of e.data_addr;
  command_port = port_of e.send_addr;
  spokes_per_revolution = 2048;
  max_spoke_len = 1024;
  pixel_values = 16;
  serial_number = none;
  nic_address = none;
  suffix = suffix;
  data_address = some (as_string e.data_addr);
  report_address = some (as_string e.report_addr);
  send_address = some (as_string e.send_addr);
}

abbrev pub suffix_a : Option (List ℕ)
suffix_a = some (0x41 ∷ [])

abbrev pub suffix_b : Option (List ℕ)
suffix_b = some (0x42 ∷ [])

-- "BR24"
abbrev pub br24_name : Option (List ℕ)
br24_name = some (0x42 ∷ (0x52 ∷ (0x32 ∷ (0x34 ∷ []))))

-- `c_string(&beacon.header.serial_no).ok_or(ParseError::InvalidString)?`
abbrev pub serial_of : List (List ℕ) → Outcome (List ℕ)
serial_of beacon = ok_or invalid_string (c_string (field 1 beacon))

module _ (bin : Bincode) where
  unfoldable pub parse_beacon_dual : List ℕ → List ℕ → Outcome (List RadarDiscovery)
  parse_beacon_dual bs source_addr = do
    beacon ← bin.deserialize beacon_dual bs
    serial_no ← serial_of beacon
    ok (
        discovery none serial_no source_addr suffix_a (endpoints_a beacon)
        ∷ (discovery none serial_no source_addr suffix_b (endpoints_b beacon) ∷ []))

  unfoldable pub parse_beacon_single : List ℕ → List ℕ → Outcome (List RadarDiscovery)
  parse_beacon_single bs source_addr = do
    beacon ← bin.deserialize beacon_single bs
    serial_no ← serial_of beacon
    ok (discovery none serial_no source_addr none (endpoints_a beacon) ∷ [])

  unfoldable pub parse_beacon_br24 : List ℕ → List ℕ → Outcome (List RadarDiscovery)
  parse_beacon_br24 bs source_addr = do
    beacon ← bin.deserialize br24_beacon bs
    serial_no ← serial_of beacon
    ok (discovery br24_name serial_no source_addr none (endpoints_br24 beacon) ∷ [])

  unfoldable pub parse_beacon_response : List ℕ → List ℕ → Outcome (List RadarDiscovery)
  parse_beacon_response bs source_addr = at_least 2 bs (
      if not (is_beacon_response bs)
      then err (invalid_header (0x01 ∷ (0xB2 ∷ [])) (slice 0 2 bs))
      else (if is_address_request bs
          then err invalid_packet
          else (if leb beacon_dual_size (length bs)
              then parse_beacon_dual bs source_addr
              else (if leb beacon_single_size (length bs)
                  then parse_beacon_single bs source_addr
                  else (if leb beacon_br24_size (length bs)
                      then parse_beacon_br24 bs source_addr
                      else err (too_short beacon_br24_size (length bs)))))))

  -- the three branches of `parse_beacon_endpoints`
  unfoldable pub endpoints_dual : List ℕ → Outcome ParsedBeacon
  endpoints_dual bs = do
    beacon ← bin.deserialize beacon_dual bs
    serial_no ← serial_of beacon
    ok (record {
      serial_no = serial_no;
      radar_addr = as_string (addr_at 2 beacon);
      is_dual_range = true;
      is_br24 = false;
      radars =
          parsed_endpoints suffix_a (endpoints_a beacon)
          ∷ (parsed_endpoints suffix_b (endpoints_b beacon) ∷ []);
    })

  unfoldable pub endpoints_single : List ℕ → Outcome ParsedBeacon
  endpoints_single bs = do
    beacon ← bin.deserialize beacon_single bs
    serial_no ← serial_of beacon
    ok (record {
      serial_no = serial_no;
      radar_addr = as_string (addr_at 2 beacon);
      is_dual_range = false;
      is_br24 = false;
      radars = parsed_endpoints none (endpoints_a beacon) ∷ [];
    })

  unfoldable pub endpoints_of_br24 : List ℕ → Outcome ParsedBeacon
  endpoints_of_br24 bs = do
    beacon ← bin.deserialize br24_beacon bs
    serial_no ← serial_of beacon
    ok (record {
      serial_no = serial_no;
      radar_addr = as_string (addr_at 2 beacon);
      is_dual_range = false;
      is_br24 = true;
      radars = parsed_endpoints none (endpoints_br24 beacon) ∷ [];
    })

  unfoldable pub parse_beacon_endpoints : List ℕ → Outcome ParsedBeacon
  parse_beacon_endpoints bs =
      if ltb (length bs) 2 || not (is_beacon_response bs)
      then err
          (invalid_header (0x01 ∷ (0xB2 ∷ [])) (if leb 2 (length bs) then slice 0 2 bs else bs))
      else (if leb beacon_dual_size (length bs)
          then endpoints_dual bs
          else (if leb beacon_single_size (length bs)
              then endpoints_single bs
              else (if leb beacon_br24_size (length bs)
                  then endpoints_of_br24 bs
                  else err (too_short beacon_br24_size (length bs)))))
