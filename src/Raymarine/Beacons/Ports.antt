-- ===== src/Raymarine/Beacons/Ports.antt =====
-- The discovery that a beacon of endpoints makes.
use mayara.Prelude.{
  ℕ, ◌+◌, ◌/◌, ◌%◌, ◌<◌, ◌^◌, ◌≡◌, ◌∙◌, ap, true, false, List, [], ◌∷◌, ◌++◌, none, some, arith,
  length, leb, ltb, ◌==◌, if◌then◌else◌, Bool-cases, inl, inr, refl, to_le_bytes,
  from_le_bytes-to_le_bytes, length-append,
}
use mayara.Packet.{ok, at_least}
use mayara.Packet.Struct.{Bincode, layout, length-layout}
use mayara.Packet.Head.{int_fields, int_fields-Fits, read_head}
use mayara.Packet.Text.{show_u16, behind_colon, read_u16, hex_digit, show_hex}
use mayara.Packet.Discovery.{raymarine}
use mayara.Packet.Text.Ports.{behind_colon-append, has_colon-show_u16, read_u16-show_u16}
use mayara.Raymarine.Beacons.{
  LittleEndianSocketAddrV4, port_of, as_string, port_in, or_0, ip_string, beacon_36,
  parse_beacon_36, beacon_36_of, base_model_36, discovery, discovery_36, sizes_of,
  parse_beacon_response,
}

-- The port of an address that is printed and parsed again.
port_in-as_string :
    (a : LittleEndianSocketAddrV4) → port_of a < 2 ^ 16 → port_in (as_string a) ≡ port_of a
unfolding port_in as_string
port_in-as_string a h =
    let text = show_u16 (port_of a) in
    let e : behind_colon (ip_string a ++ (0x3A ∷ text)) ≡ text =
      behind_colon-append (ip_string a) text (has_colon-show_u16 (port_of a)) in
    let r : read_u16 (behind_colon (ip_string a ++ (0x3A ∷ text))) ≡ some (port_of a) =
      rw e (read_u16-show_u16 (port_of a) h) in
    ap or_0 r

-- The fields of a beacon of endpoints: `u` stands for those that are passed over.
abbrev pub beacon_36_values : ℕ → ℕ → ℕ → ℕ → ℕ → ℕ → ℕ → List ℕ
beacon_36_values link_id subtype report_ip report_port command_ip command_port u =
    0
    ∷ (link_id
        ∷ (subtype
            ∷ (u
                ∷ (u
                    ∷ (report_ip
                        ∷ (report_port ∷ (u ∷ (command_ip ∷ (command_port ∷ (u ∷ []))))))))))

read_beacon_36 :
    (bin : Bincode) (vs rest : List ℕ)
    → parse_beacon_36 bin (layout (int_fields beacon_36 vs) ++ rest)
      ≡ beacon_36_of (int_fields beacon_36 vs)
unfolding parse_beacon_36
read_beacon_36 bin vs rest = read_head bin beacon_36 vs rest beacon_36_of

-- the address of two laid out words
abbrev addr_of : ℕ → ℕ → LittleEndianSocketAddrV4
addr_of ip port = record { addr = to_le_bytes 4 ip; port = to_le_bytes 2 port }

beacon_36_of_values :
    (link_id subtype ra rp ca cp u : ℕ)
    → link_id < 2 ^ 32
    → subtype < 2 ^ 32
    → beacon_36_of (int_fields beacon_36 (beacon_36_values link_id subtype ra rp ca cp u))
      ≡ ok (record {
        beacon_type = 0;
        link_id = link_id;
        subtype = subtype;
        report_addr = as_string (addr_of ra rp);
        command_addr = as_string (addr_of ca cp);
      })
unfolding beacon_36_of to_le_bytes
beacon_36_of_values link_id subtype ra rp ca cp u h k = λ i. ok (record {
  beacon_type = 0;
  link_id = from_le_bytes-to_le_bytes 4 link_id h i;
  subtype = from_le_bytes-to_le_bytes 4 subtype k i;
  report_addr = as_string (addr_of ra rp);
  command_addr = as_string (addr_of ca cp);
})

port_of_words : (ip port : ℕ) → port < 2 ^ 16 → port_in (as_string (addr_of ip port)) ≡ port
port_of_words ip port h =
    let e : port_of (addr_of ip port) ≡ port = from_le_bytes-to_le_bytes 2 port h in
    port_in-as_string (addr_of ip port) (omega (arith, e)) ∙ e

-- the digit of `n` at place `k`, counted from the right
abbrev pub hex_place : ℕ → ℕ → ℕ
hex_place n k = hex_digit (n / 16 ^ k % 16)

-- the eight hexadecimal digits of a number
abbrev pub eight_digits : ℕ → List ℕ
eight_digits n =
    hex_place n 7
    ∷ hex_place n 6
    ∷ hex_place n 5
    ∷ hex_place n 4
    ∷ hex_place n 3
    ∷ hex_place n 2
    ∷ hex_place n 1
    ∷ hex_place n 0
    ∷ []

show_hex-eight_digits : (n : ℕ) → show_hex n ≡ eight_digits n
unfolding show_hex
show_hex-eight_digits n =
    let e0 : n ≡ n / 16 ^ 0 = omega arith in
    let e1 : n / 16 ≡ n / 16 ^ 1 = omega arith in
    let e2 : n / 16 / 16 ≡ n / 16 ^ 2 = omega arith in
    let e3 : n / 16 / 16 / 16 ≡ n / 16 ^ 3 = omega arith in
    let e4 : n / 16 / 16 / 16 / 16 ≡ n / 16 ^ 4 = omega arith in
    let e5 : n / 16 / 16 / 16 / 16 / 16 ≡ n / 16 ^ 5 = omega arith in
    let e6 : n / 16 / 16 / 16 / 16 / 16 / 16 ≡ n / 16 ^ 6 = omega arith in
    let e7 : n / 16 / 16 / 16 / 16 / 16 / 16 / 16 ≡ n / 16 ^ 7 = omega arith in
    λ i.
      hex_digit (e7 i % 16)
      ∷ hex_digit (e6 i % 16)
      ∷ hex_digit (e5 i % 16)
      ∷ hex_digit (e4 i % 16)
      ∷ hex_digit (e3 i % 16)
      ∷ hex_digit (e2 i % 16)
      ∷ hex_digit (e1 i % 16)
      ∷ hex_digit (e0 i % 16)
      ∷ []

-- The beacon is read, and its two addresses are still texts.
read_discovery :
    (bin : Bincode) (link_id subtype ra rp ca cp u : ℕ) (rest src : List ℕ)
    → link_id < 2 ^ 32
    → subtype < 2 ^ 32
    → length rest < 20
    → parse_beacon_response bin
        (layout (int_fields beacon_36 (beacon_36_values link_id subtype ra rp ca cp u)) ++ rest)
        src
      ≡ ok (
          discovery
            (base_model_36 subtype)
            none
            link_id
            src
            (port_in (as_string (addr_of ra rp)))
            (port_in (as_string (addr_of ca cp))))
unfolding parse_beacon_response discovery_36 at_least
read_discovery bin link_id subtype ra rp ca cp u rest src h0 h1 short =
    let vs = beacon_36_values link_id subtype ra rp ca cp u in
    let cs = int_fields beacon_36 vs in
    let bs = layout cs ++ rest in
    let n : length bs ≡ 36 + length rest = omega (
      arith,
      length-append (layout cs) rest,
      length-layout beacon_36 cs (int_fields-Fits beacon_36 vs),
    ) in
    let long : ltb (length bs) 36 ≡ false = ground arith in
    let not_56 : leb 56 (length bs) ≡ false = ground arith in
    let is_36 : leb 36 (length bs) ≡ true = ground arith in
    let parsed =
      read_beacon_36 bin vs rest ∙ beacon_36_of_values link_id subtype ra rp ca cp u h0 h1 in
    rw (long, not_56, is_36, parsed) refl

discovery_fields :
    (subtype link_id rp cp : ℕ) (src : List ℕ)
    → discovery (base_model_36 subtype) none link_id src rp cp ≡ record {
      brand = raymarine;
      model = none;
      name = eight_digits link_id;
      address = src;
      data_port = rp;
      command_port = cp;
      spokes_per_revolution = if subtype == 0x28 then 250 else 2048;
      max_spoke_len = if subtype == 0x28 then 252 else 1024;
      pixel_values = if subtype == 0x28 then 128 else 16;
      serial_number = none;
      nic_address = none;
      suffix = none;
      data_address = none;
      report_address = none;
      send_address = none;
    }
unfolding discovery base_model_36 sizes_of
discovery_fields subtype link_id rp cp src = elim (Bool-cases (subtype == 0x28)) [
  | inl e ↦ rw (e, show_hex-eight_digits link_id) refl
  | inr e ↦ rw (e, show_hex-eight_digits link_id) refl
]

-- A beacon of endpoints that is laid out in a packet of less than 56 bytes makes a discovery of a Raymarine
-- radar of no known model. Its name is the link id in eight hexadecimal digits. Subtype 0x28 makes it a
-- Quantum, of 250 spokes of 252 pixels with 128 values, and any other subtype an RD, of 2048 spokes of
-- 1024 pixels with 16 values. The ports are the very ports of the two addresses, which the code prints with
-- the address and parses again. The fields that the locator sets are empty.
pub parse_beacon_response_lem :
    (bin : Bincode) (link_id subtype report_ip report_port command_ip command_port u : ℕ)
    (rest source_addr : List ℕ)
    → link_id < 2 ^ 32
    → subtype < 2 ^ 32
    → report_port < 2 ^ 16
    → command_port < 2 ^ 16
    → length rest < 20
    → parse_beacon_response bin
        (layout (
            int_fields beacon_36
              (beacon_36_values link_id subtype report_ip report_port command_ip command_port u))
          ++ rest)
        source_addr
      ≡ ok (record {
        brand = raymarine;
        model = none;
        name = eight_digits link_id;
        address = source_addr;
        data_port = report_port;
        command_port = command_port;
        spokes_per_revolution = if subtype == 0x28 then 250 else 2048;
        max_spoke_len = if subtype == 0x28 then 252 else 1024;
        pixel_values = if subtype == 0x28 then 128 else 16;
        serial_number = none;
        nic_address = none;
        suffix = none;
        data_address = none;
        report_address = none;
        send_address = none;
      })
parse_beacon_response_lem bin link_id subtype ra rp ca cp u rest src h0 h1 h2 h3 short =
    let d = discovery (base_model_36 subtype) none link_id src in
    read_discovery bin link_id subtype ra rp ca cp u rest src h0 h1 short
    ∙ ap (λ p. ok (d p (port_in (as_string (addr_of ca cp))))) (port_of_words ra rp h2)
    ∙ ap (λ p. ok (d rp p)) (port_of_words ca cp h3)
    ∙ ap ok (discovery_fields subtype link_id rp cp src)
