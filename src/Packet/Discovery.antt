-- ===== src/Packet/Discovery.antt =====
-- What a beacon tells of a radar: `RadarDiscovery` of mayara-core/src/radar.rs and `Brand` of
-- mayara-core/src/brand.rs.
use mayara.Prelude.{ℕ, List, Option}

pub data Brand : Type 0 where
  furuno garmin navico raymarine : Brand

-- Texts are lists of code points; the ports, counts and lengths are of 16 bits.
pub record RadarDiscovery : Type 0 where
  pub brand : Brand
  pub model : Option (List ℕ)
  pub name : List ℕ
  pub address : List ℕ
  pub data_port : ℕ
  pub command_port : ℕ
  pub spokes_per_revolution : ℕ
  pub max_spoke_len : ℕ
  pub pixel_values : ℕ
  pub serial_number : Option (List ℕ)
  pub nic_address : Option (List ℕ)
  pub suffix : Option (List ℕ)
  pub data_address : Option (List ℕ)
  pub report_address : Option (List ℕ)
  pub send_address : Option (List ℕ)
