-- ===== src/Navico/Reports.antt =====
-- The reports that a Navico radar sends.
use mayara.Prelude.{
  ℕ, ◌+◌, Bool, ◌||◌, not, List, [], ◌∷◌, Option, none, some, if◌then◌else◌, ◌==◌, leb, length,
}
use mayara.Prelude.Int.{ℤ}
use mayara.Packet.{
  invalid_header, invalid_packet, Outcome, ok, err, ◌>>=◌, ok_or, at_least, slice_at, is_set,
  as_signed,
}
use mayara.Packet.Struct.{Bincode, field, int_field, size_of}
use mayara.Packet.Text.{c_string, wide_string}
use mayara.Navico.{Model, model_from_byte, Status, status_from_byte}

-- The fields of the structs. A byte array that serde splits in two is two fields.
abbrev pub report_01 : List ℕ
report_01 = 1 ∷ (1 ∷ (1 ∷ (15 ∷ [])))

abbrev pub report_02 : List ℕ
report_02 =
    1
    ∷ (1
        ∷ (4
            ∷ (1
                ∷ (1
                    ∷ (1
                        ∷ (3
                            ∷ (1
                                ∷ (1
                                    ∷ (3
                                        ∷ (4
                                            ∷ (1
                                                ∷ (1
                                                    ∷ (11
                                                        ∷ (1
                                                            ∷ (3
                                                            ∷ (1
                                                            ∷ (3
                                                            ∷ (1
                                                            ∷ (32 ∷ (24 ∷ []))))))))))))))))))))

abbrev pub report_03 : List ℕ
report_03 = 1 ∷ (1 ∷ (1 ∷ (31 ∷ (4 ∷ (20 ∷ (32 ∷ (32 ∷ (7 ∷ []))))))))

abbrev pub report_04 : List ℕ
report_04 = 1 ∷ (1 ∷ (4 ∷ (2 ∷ (2 ∷ (2 ∷ (7 ∷ (1 ∷ (32 ∷ (14 ∷ [])))))))))

-- four `SectorBlanking` between `gap` and 12 bytes
abbrev pub report_06 : ℕ → List ℕ
report_06 gap =
    1
    ∷ (1
        ∷ (4
            ∷ (6
                ∷ (gap
                    ∷ (1
                        ∷ (2
                            ∷ (2
                                ∷ (1
                                    ∷ (2
                                        ∷ (2
                                            ∷ (1
                                                ∷ (2 ∷ (2 ∷ (1 ∷ (2 ∷ (2 ∷ (12 ∷ [])))))))))))))))))

abbrev pub report_06_68 : List ℕ
report_06_68 = report_06 24

abbrev pub report_06_74 : List ℕ
report_06_74 = report_06 30

abbrev pub report_08_base : List ℕ
report_08_base =
    1
    ∷ (1
        ∷ (1
            ∷ (1
                ∷ (1
                    ∷ (1 ∷ (1 ∷ (1 ∷ (1 ∷ (1 ∷ (2 ∷ (1 ∷ (1 ∷ (1 ∷ (1 ∷ (1 ∷ (1 ∷ []))))))))))))))))

abbrev pub report_08_extended : List ℕ
report_08_extended = 18 ∷ (1 ∷ (2 ∷ []))

pub record ParsedControls : Type 0 where
  pub range : ℤ
  pub mode : ℕ
  pub gain : ℕ
  pub gain_auto : Bool
  pub sea : ℤ
  pub sea_auto : ℕ
  pub rain : ℕ
  pub interference_rejection : ℕ
  pub target_expansion : ℕ
  pub target_boost : ℕ

pub record ParsedModelInfo : Type 0 where
  pub model : Model
  pub model_byte : ℕ
  pub operating_hours : ℕ
  pub firmware_date : List ℕ
  pub firmware_time : List ℕ

pub record ParsedInstallation : Type 0 where
  pub bearing_alignment : ℤ
  pub antenna_height : ℕ
  pub accent_light : ℕ

pub record ParsedSectorBlanking : Type 0 where
  pub enabled : Bool
  pub start_angle : ℤ
  pub end_angle : ℤ

pub record ParsedBlanking : Type 0 where
  pub name : Option (List ℕ)
  pub sectors : List ParsedSectorBlanking

pub record ParsedAdvancedSettings : Type 0 where
  pub sea_state : ℕ
  pub local_interference_rejection : ℕ
  pub scan_speed : ℕ
  pub sidelobe_suppression_auto : Bool
  pub sidelobe_suppression : ℕ
  pub noise_rejection : ℕ
  pub target_separation : ℕ
  pub sea_clutter : ℕ
  pub auto_sea_clutter : ℤ
  pub doppler_state : Option ℕ
  pub doppler_speed : Option ℕ

unfoldable pub controls_of : List (List ℕ) → ParsedControls
controls_of report = record {
  range = as_signed 32 (int_field 2 report);
  mode = int_field 4 report;
  gain = int_field 7 report;
  gain_auto = is_set (int_field 5 report);
  sea = as_signed 32 (int_field 10 report);
  sea_auto = int_field 8 report;
  rain = int_field 12 report;
  interference_rejection = int_field 14 report;
  target_expansion = int_field 16 report;
  target_boost = int_field 18 report;
}

unfoldable pub model_info_of : List (List ℕ) → ParsedModelInfo
model_info_of report = record {
  model = model_from_byte (int_field 2 report);
  model_byte = int_field 2 report;
  operating_hours = int_field 4 report;
  firmware_date = wide_string (field 6 report);
  firmware_time = wide_string (field 7 report);
}

unfoldable pub installation_of : List (List ℕ) → ParsedInstallation
installation_of report = record {
  bearing_alignment = as_signed 16 (int_field 3 report);
  antenna_height = int_field 5 report;
  accent_light = int_field 7 report;
}

-- the sector whose three fields start at place `i`
abbrev pub sector_at : ℕ → List (List ℕ) → ParsedSectorBlanking
sector_at i report = record {
  enabled = is_set (int_field i report);
  start_angle = as_signed 16 (int_field (i + 1) report);
  end_angle = as_signed 16 (int_field (i + 2) report);
}

unfoldable pub blanking_of : List (List ℕ) → ParsedBlanking
blanking_of report = record {
  name = c_string (field 3 report);
  sectors =
      sector_at 5 report
      ∷ (sector_at 8 report ∷ (sector_at 11 report ∷ (sector_at 14 report ∷ [])));
}

unfoldable pub advanced_of : List (List ℕ) → Option ℕ → Option ℕ → ParsedAdvancedSettings
advanced_of report doppler_state doppler_speed = record {
  sea_state = int_field 2 report;
  local_interference_rejection = int_field 3 report;
  scan_speed = int_field 4 report;
  sidelobe_suppression_auto = is_set (int_field 5 report);
  sidelobe_suppression = int_field 9 report;
  noise_rejection = int_field 11 report;
  target_separation = int_field 12 report;
  sea_clutter = int_field 13 report;
  auto_sea_clutter = as_signed 8 (int_field 14 report);
  doppler_state = doppler_state;
  doppler_speed = doppler_speed;
}

-- the test of `what` and `command` that every report has
unfoldable pub marked : {A : Type 0} → ℕ → List (List ℕ) → Outcome A → Outcome A
marked what report rest =
    if not (int_field 0 report == what) || not (int_field 1 report == 0xC4)
    then err (invalid_header (what ∷ (0xC4 ∷ [])) (int_field 0 report ∷ (int_field 1 report ∷ [])))
    else rest

module _ (bin : Bincode) where
  -- the length, the cut, `bincode::deserialize` and the mark of a report
  unfoldable pub read_report :
      {A : Type 0} → ℕ → List ℕ → List ℕ → (List (List ℕ) → Outcome A) → Outcome A
  read_report what ws bs f = at_least (size_of ws) bs do
    head ← slice_at 0 (size_of ws) bs
    report ← bin.deserialize ws head
    marked what report (f report)

  unfoldable pub parse_report_01 : List ℕ → Outcome Status
  parse_report_01 bs =
      read_report 0x01 report_01 bs
        (λ report. ok_or invalid_packet (status_from_byte (int_field 2 report)))

  unfoldable pub parse_report_02 : List ℕ → Outcome ParsedControls
  parse_report_02 bs = read_report 0x02 report_02 bs (λ report. ok (controls_of report))

  unfoldable pub parse_report_03 : List ℕ → Outcome ParsedModelInfo
  parse_report_03 bs = read_report 0x03 report_03 bs (λ report. ok (model_info_of report))

  unfoldable pub parse_report_04 : List ℕ → Outcome ParsedInstallation
  parse_report_04 bs = read_report 0x04 report_04 bs (λ report. ok (installation_of report))

  unfoldable pub parse_report_06_68 : List ℕ → Outcome ParsedBlanking
  parse_report_06_68 bs = read_report 0x06 report_06_68 bs (λ report. ok (blanking_of report))

  unfoldable pub parse_report_06_74 : List ℕ → Outcome ParsedBlanking
  parse_report_06_74 bs = read_report 0x06 report_06_74 bs (λ report. ok (blanking_of report))

  -- the two fields behind the base, of a packet that is long enough for them
  unfoldable pub doppler_of : List ℕ → Outcome (Option ℕ × Option ℕ)
  doppler_of bs =
      let extended = (do
        head ← slice_at 0 (size_of report_08_extended) bs
        report ← bin.deserialize report_08_extended head
        ok (some (int_field 1 report), some (int_field 2 report))) in
      if leb (size_of report_08_extended) (length bs) then extended else ok (none, none)

  unfoldable pub parse_report_08 : List ℕ → Outcome ParsedAdvancedSettings
  parse_report_08 bs = read_report 0x08 report_08_base bs λ report. do
    (doppler_state, doppler_speed) ← doppler_of bs
    ok (advanced_of report doppler_state doppler_speed)
