-- ===== src/Navico/Commands.antt =====
-- The commands to a Navico radar.
use mayara.Prelude.{ℕ, Bool, List, [], ◌∷◌, ◌++◌, if◌then◌else◌, to_le_bytes}
use mayara.Navico.{DopplerMode, as_byte}

unfoldable pub create_address_request : List ℕ
create_address_request = 0x01 ∷ (0xB1 ∷ [])

unfoldable pub create_status_command : Bool → List ℕ
create_status_command transmit =
    let value : ℕ = if transmit then 1 else 0 in
    0x00 ∷ (0xc1 ∷ (0x01 ∷ (0x01 ∷ (0xc1 ∷ (value ∷ [])))))

-- The decimeters are the 32-bit word of the number.
unfoldable pub create_range_command : ℕ → List ℕ
create_range_command decimeters = 0x03 ∷ (0xc1 ∷ to_le_bytes 4 decimeters)

unfoldable pub create_gain_command : ℕ → Bool → List ℕ
create_gain_command value is_auto =
    let mode : ℕ = if is_auto then 1 else 0 in
    (0x06 ∷ (0xc1 ∷ (0x00 ∷ (0x00 ∷ (0x00 ∷ (0x00 ∷ [])))))) ++ (to_le_bytes 4 mode ++ (value ∷ []))

unfoldable pub create_rain_command : ℕ → List ℕ
create_rain_command value =
    0x06 ∷ (0xc1 ∷ (0x04 ∷ (0 ∷ (0 ∷ (0 ∷ (0 ∷ (0 ∷ (0 ∷ (0 ∷ (value ∷ []))))))))))

unfoldable pub create_interference_rejection_command : ℕ → List ℕ
create_interference_rejection_command level = 0x08 ∷ (0xc1 ∷ (level ∷ []))

unfoldable pub create_scan_speed_command : ℕ → List ℕ
create_scan_speed_command speed = 0x0f ∷ (0xc1 ∷ (speed ∷ []))

unfoldable pub create_doppler_command : DopplerMode → List ℕ
create_doppler_command mode = 0x23 ∷ (0xc1 ∷ (as_byte mode ∷ []))
