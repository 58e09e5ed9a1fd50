-- ===== src/Navico/Beacons/Agreement.antt =====
-- The parser of discoveries against the parser of endpoints.
use mayara.Prelude.{
  ℕ, ◌≤◌, ◌≡◌, refl, true, false, ◌&&◌, List, [], ◌∷◌, Option, none, some, map, arith,
  if◌then◌else◌, ltb, leb, length, get_or, bytes_eq, ◌==◌, leb→le, Bool-cases, Option-cases, inl,
  inr,
}
use mayara.Packet.{too_short, Outcome, ok, err, panics, at_least}
use mayara.Packet.Struct.{Bincode, size_of, fields, field}
use mayara.Packet.Discovery.{RadarDiscovery}
use mayara.Packet.Text.{c_string}
use mayara.Navico.{is_beacon_response, is_address_request}
use mayara.Navico.Beacons.{
  ParsedBeacon, ParsedRadarEndpoints, beacon_dual, beacon_single, br24_beacon, parse_beacon_dual,
  parse_beacon_single, parse_beacon_br24, parse_beacon_response, endpoints_dual, endpoints_single,
  endpoints_of_br24, parse_beacon_endpoints, discovery, parsed_endpoints,
}

-- What both tell of a radar: the serial number, its suffix and its three addresses.
pub record Radar : Type 0 where
  pub serial : List ℕ
  pub suffix : Option (List ℕ)
  pub data_address : Option (List ℕ)
  pub send_address : Option (List ℕ)
  pub report_address : Option (List ℕ)

abbrev pub of_discovery : RadarDiscovery → Radar
of_discovery d = record {
  serial = d.name;
  suffix = d.suffix;
  data_address = d.data_address;
  send_address = d.send_address;
  report_address = d.report_address;
}

abbrev pub of_endpoints : List ℕ → ParsedRadarEndpoints → Radar
of_endpoints serial e = record {
  serial = serial;
  suffix = e.suffix;
  data_address = some e.data_addr;
  send_address = some e.send_addr;
  report_address = some e.report_addr;
}

-- An outcome with its error forgotten.
abbrev pub radars_found : Outcome (List RadarDiscovery) → Option (List Radar)
radars_found (ok ds) = some (map of_discovery ds)
radars_found (err e) = none
radars_found panics = none

abbrev pub endpoints_found : Outcome ParsedBeacon → Option (List Radar)
endpoints_found (ok b) = some (map (of_endpoints b.serial_no) b.radars)
endpoints_found (err e) = none
endpoints_found panics = none

not_both :
    (bs : List ℕ)
    → (leb 2 (length bs) && (get_or bs 0 0 == 0x01) && (get_or bs 1 0 == 0xB2)) ≡ true
    → bytes_eq bs (0x01 ∷ (0xB1 ∷ [])) ≡ false
not_both [] h = refl
not_both (a ∷ []) h = ground arith
not_both (a ∷ (b ∷ bs)) h = ground arith

module _ (bin : Bincode) (bs source_addr : List ℕ) where
  dual_lem :
      size_of beacon_dual ≤ length bs
      → radars_found (parse_beacon_dual bin bs source_addr)
        ≡ endpoints_found (endpoints_dual bin bs)
  unfolding parse_beacon_dual endpoints_dual discovery parsed_endpoints
  dual_lem h =
      rw (bin.deserialize_lem beacon_dual bs h)
        (elim (Option-cases (c_string (field 1 (fields beacon_dual bs)))) [
          | inl e ↦ rw e refl
          | inr (s, e) ↦ rw e refl
        ])

  single_lem :
      size_of beacon_single ≤ length bs
      → radars_found (parse_beacon_single bin bs source_addr)
        ≡ endpoints_found (endpoints_single bin bs)
  unfolding parse_beacon_single endpoints_single discovery parsed_endpoints
  single_lem h =
      rw (bin.deserialize_lem beacon_single bs h)
        (elim (Option-cases (c_string (field 1 (fields beacon_single bs)))) [
          | inl e ↦ rw e refl
          | inr (s, e) ↦ rw e refl
        ])

  br24_lem :
      size_of br24_beacon ≤ length bs
      → radars_found (parse_beacon_br24 bin bs source_addr)
        ≡ endpoints_found (endpoints_of_br24 bin bs)
  unfolding parse_beacon_br24 endpoints_of_br24 discovery parsed_endpoints
  br24_lem h =
      rw (bin.deserialize_lem br24_beacon bs h)
        (elim (Option-cases (c_string (field 1 (fields br24_beacon bs)))) [
          | inl e ↦ rw e refl
          | inr (s, e) ↦ rw e refl
        ])

  -- An address request does not start as a beacon does.
  no_request : is_beacon_response bs ≡ true → is_address_request bs ≡ false
  unfolding is_beacon_response is_address_request
  no_request h = not_both bs h

  by_length :
      radars_found (
        if leb 150 (length bs)
        then parse_beacon_dual bin bs source_addr
        else (if leb 114 (length bs)
            then parse_beacon_single bin bs source_addr
            else (if leb 98 (length bs)
                then parse_beacon_br24 bin bs source_addr
                else err (too_short 98 (length bs)))))
      ≡ endpoints_found (
          if leb 150 (length bs)
          then endpoints_dual bin bs
          else (if leb 114 (length bs)
              then endpoints_single bin bs
              else (if leb 98 (length bs)
                  then endpoints_of_br24 bin bs
                  else err (too_short 98 (length bs)))))
  by_length = elim (Bool-cases (leb 150 (length bs))) [
    | inl d ↦ rw d (dual_lem (leb→le _ _ d))
    | inr d ↦ elim (Bool-cases (leb 114 (length bs))) [
      | inl s ↦ rw (d, s) (single_lem (leb→le _ _ s))
      | inr s ↦ elim (Bool-cases (leb 98 (length bs))) [
        | inl b ↦ rw (d, s, b) (br24_lem (leb→le _ _ b))
        | inr b ↦ rw (d, s, b) refl
      ]
    ]
  ]

  -- Both parsers accept the same packets, and of an accepted one they tell the same radars: as many, with the
  -- same serial number, suffixes, and data, send and report addresses.
  pub beacon_parsers_agree :
      radars_found (parse_beacon_response bin bs source_addr)
      ≡ endpoints_found (parse_beacon_endpoints bin bs)
  unfolding parse_beacon_response parse_beacon_endpoints at_least
  beacon_parsers_agree = elim (Bool-cases (ltb (length bs) 2)) [
    | inl short ↦ rw short refl
    | inr long ↦ elim (Bool-cases (is_beacon_response bs)) [
      | inr other ↦ rw (long, other) refl
      | inl beacon ↦ rw (long, beacon, no_request beacon) by_length
    ]
  ]
