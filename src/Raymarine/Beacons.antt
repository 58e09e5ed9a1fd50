-- ===== src/Raymarine/Beacons.antt =====
-- The two beacons of Raymarine radars, and the discovery that each makes.
pub mod Ports
use mayara.Prelude.{
  ℕ, ◌+◌, ◌/◌, ◌%◌, ◌^◌, Bool, true, false, ◌&&◌, ◌||◌, not, List, [], ◌∷◌, ◌++◌, Option, none,
  some, if◌then◌else◌, ◌==◌, leb, ltb, length, from_le_bytes,
}
use mayara.Packet.{
  ParseError, invalid_header, invalid_packet, too_short, Outcome, ok, err, ◌>>=◌, at_least,
  slice_at,
}
use mayara.Packet.Struct.{Bincode, field, int_field}
use mayara.Packet.Text.{c_string, show_u16, show_ip, behind_colon, read_u16, show_hex}
use mayara.Packet.Discovery.{Brand, raymarine, RadarDiscovery}

pub data BaseModel : Type 0 where
  rd quantum : BaseModel

-- `LittleEndianSocketAddrV4`
pub record LittleEndianSocketAddrV4 : Type 0 where
  pub addr : List ℕ
  pub port : List ℕ

-- the octets of the address, from the word's highest byte down
unfoldable pub ip_string : LittleEndianSocketAddrV4 → List ℕ
ip_string a =
    let ip_val = from_le_bytes a.addr in
    show_ip (ip_val / 2 ^ 24 % 256) (ip_val / 2 ^ 16 % 256) (ip_val / 2 ^ 8 % 256) (ip_val % 256)

-- `port`
abbrev pub port_of : LittleEndianSocketAddrV4 → ℕ
port_of a = from_le_bytes a.port

unfoldable pub as_string : LittleEndianSocketAddrV4 → List ℕ
as_string a = ip_string a ++ (0x3A ∷ show_u16 (port_of a))

-- the fields of `Beacon36`, with the two of each address
abbrev pub beacon_36 : List ℕ
beacon_36 = 4 ∷ (4 ∷ (4 ∷ (4 ∷ (4 ∷ (4 ∷ (2 ∷ (2 ∷ (4 ∷ (2 ∷ (2 ∷ []))))))))))

-- the fields of `Beacon56`
abbrev pub beacon_56 : List ℕ
beacon_56 = 4 ∷ (4 ∷ (4 ∷ (4 ∷ (4 ∷ (32 ∷ (4 ∷ []))))))

-- `BEACON_36_SIZE` and `BEACON_56_SIZE`
abbrev pub beacon_36_size : ℕ
beacon_36_size = 36

abbrev pub beacon_56_size : ℕ
beacon_56_size = 56

pub record ParsedBeacon56 : Type 0 where
  pub beacon_type : ℕ
  pub subtype : ℕ
  pub link_id : ℕ
  pub model_name : Option (List ℕ)
  pub base_model : BaseModel

pub record ParsedBeacon36 : Type 0 where
  pub beacon_type : ℕ
  pub link_id : ℕ
  pub subtype : ℕ
  pub report_addr : List ℕ
  pub command_addr : List ℕ

unfoldable pub is_beacon_36 : List ℕ → Bool
is_beacon_36 bs = length bs == beacon_36_size

unfoldable pub is_beacon_56 : List ℕ → Bool
is_beacon_56 bs = length bs == beacon_56_size

-- "RD/HD/Eseries"
abbrev rd_name : List ℕ
rd_name =
    0x52
    ∷ (0x44
        ∷ (0x2F
            ∷ (0x48
                ∷ (0x44
                    ∷ (0x2F ∷ (0x45 ∷ (0x73 ∷ (0x65 ∷ (0x72 ∷ (0x69 ∷ (0x65 ∷ (0x73 ∷ []))))))))))))

-- the model that a subtype of a 56-byte beacon stands for
unfoldable pub model_of : ℕ → List ℕ → Outcome (Option (List ℕ) × BaseModel)
model_of subtype model_name =
    if subtype == 0x66
    then ok (c_string model_name, quantum)
    else (if subtype == 0x01
        then ok (some rd_name, rd)
        else (if subtype == 0x4d then ok (c_string model_name, quantum) else err invalid_packet))

-- the fields of a beacon of either kind
unfoldable pub beacon_56_of : List (List ℕ) → Outcome ParsedBeacon56
beacon_56_of beacon =
    if not (int_field 0 beacon == 0x00000001)
    then err (invalid_header (0x01 ∷ (0x00 ∷ (0x00 ∷ (0x00 ∷ [])))) (field 0 beacon))
    else (do
      (model_name, base_model) ← model_of (int_field 1 beacon) (field 5 beacon)
      ok (record {
        beacon_type = int_field 0 beacon;
        subtype = int_field 1 beacon;
        link_id = int_field 2 beacon;
        model_name = model_name;
        base_model = base_model;
      }))

-- the address in two fields from place `i` on
abbrev pub addr_at : ℕ → List (List ℕ) → LittleEndianSocketAddrV4
addr_at i beacon = record { addr = field i beacon; port = field (i + 1) beacon }

unfoldable pub beacon_36_of : List (List ℕ) → Outcome ParsedBeacon36
beacon_36_of beacon =
    if not (int_field 0 beacon == 0x00000000)
    then err (invalid_header (0x00 ∷ (0x00 ∷ (0x00 ∷ (0x00 ∷ [])))) (field 0 beacon))
    else ok (record {
      beacon_type = int_field 0 beacon;
      link_id = int_field 1 beacon;
      subtype = int_field 2 beacon;
      report_addr = as_string (addr_at 5 beacon);
      command_addr = as_string (addr_at 8 beacon);
    })

-- `is_valid_beacon_36_subtype`
unfoldable pub is_valid_beacon_36_subtype : ℕ → BaseModel → Bool
is_valid_beacon_36_subtype subtype quantum = subtype == 0x28
is_valid_beacon_36_subtype subtype rd =
    subtype == 0x01
    || subtype == 8
    || subtype == 21
    || subtype == 26
    || subtype == 27
    || subtype == 30
    || subtype == 35

-- the base model that `parse_beacon_response` takes for the subtype of a 36-byte beacon
unfoldable pub base_model_36 : ℕ → BaseModel
base_model_36 subtype = if subtype == 0x28 then quantum else rd

-- the spokes of a revolution, the length of a spoke and the pixel values
unfoldable pub sizes_of : BaseModel → ℕ × ℕ × ℕ
sizes_of quantum = (250, 252, 128)
sizes_of rd = (2048, 1024, 16)

-- `.unwrap_or(0)`
abbrev pub or_0 : Option ℕ → ℕ
or_0 none = 0
or_0 (some p) = p

-- `.rsplit(':').next().and_then(|s| s.parse().ok()).unwrap_or(0)`
unfoldable pub port_in : List ℕ → ℕ
port_in addr = or_0 (read_u16 (behind_colon addr))

unfoldable pub discovery : BaseModel → Option (List ℕ) → ℕ → List ℕ → ℕ → ℕ → RadarDiscovery
discovery base_model model link_id source_addr data_port command_port =
    let (spokes, spoke_len, pixels) = sizes_of base_model in
    record {
      brand = raymarine;
      model = model;
      name = show_hex link_id;
      address = source_addr;
      data_port = data_port;
      command_port = command_port;
      spokes_per_revolution = spokes;
      max_spoke_len = spoke_len;
      pixel_values = pixels;
      serial_number = none;
      nic_address = none;
      suffix = none;
      data_address = none;
      report_address = none;
      send_address = none;
    }

unfoldable pub discovery_36 : ParsedBeacon36 → List ℕ → RadarDiscovery
discovery_36 beacon source_addr =
    discovery (base_model_36 beacon.subtype) none beacon.link_id source_addr
      (port_in beacon.report_addr) (port_in beacon.command_addr)

unfoldable pub discovery_56 : ParsedBeacon56 → List ℕ → RadarDiscovery
discovery_56 beacon source_addr =
    discovery beacon.base_model beacon.model_name beacon.link_id source_addr 0 0

module _ (bin : Bincode) where
  unfoldable pub parse_beacon_56 : List ℕ → Outcome ParsedBeacon56
  parse_beacon_56 bs = at_least beacon_56_size bs do
    head ← slice_at 0 beacon_56_size bs
    beacon ← bin.deserialize beacon_56 head
    beacon_56_of beacon

  unfoldable pub parse_beacon_36 : List ℕ → Outcome ParsedBeacon36
  parse_beacon_36 bs = at_least beacon_36_size bs do
    head ← slice_at 0 beacon_36_size bs
    beacon ← bin.deserialize beacon_36 head
    beacon_36_of beacon

  unfoldable pub parse_beacon_response : List ℕ → List ℕ → Outcome RadarDiscovery
  parse_beacon_response bs source_addr =
      let by_56 = (do beacon ← parse_beacon_56 bs; ok (discovery_56 beacon source_addr)) in
      let by_36 = (do beacon ← parse_beacon_36 bs; ok (discovery_36 beacon source_addr)) in
      at_least 36 bs (
        if leb beacon_56_size (length bs)
        then by_56
        else (if leb beacon_36_size (length bs) then by_36 else err (too_short 36 (length bs))))
