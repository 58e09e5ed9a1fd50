-- ===== src/Raymarine/Status/Reports.antt =====
-- The behaviour of the status parsers on every packet.
use mayara.Prelude.{
  ℕ, zero, suc, ◌+◌, ◌*◌, ◌≤◌, ◌<◌, ◌≡◌, refl, ap, ◌⊎◌, inl, inr, Bool, true, false, List, [], ◌∷◌,
  arith, length, ltb, le→leb, Bool-cases, ltb→lt,
}
use mayara.Packet.{too_short, ok, err, at_least}
use mayara.Packet.Gives.{Gives, Gives-ok, Gives-bind, Gives-byte_at, Gives-word_at, gives_rules}
use mayara.Raymarine.Status.{
  QuantumControlsPerMode, ParsedQuantumStatus, ParsedRdStatus, controls_at, all_controls,
  quantum_ranges, parse_quantum_status, rd_ranges, rd_status_fields,
}

-- a byte of a mode's eight
mode_byte :
    (base : ℕ) (bs : List ℕ) (k : ℕ) → base + 8 ≤ length bs → ltb k 8 ≡ true → base + k < length bs
mode_byte base bs k h l = ground arith

controls_at_lem :
    (base : ℕ) (bs : List ℕ)
    → base + 8 ≤ length bs
    → Gives (λ (c : QuantumControlsPerMode). Unit {0}) (controls_at base bs)
unfolding controls_at
controls_at_lem base bs h =
    let first : base < length bs = omega arith in
    search (gives_rules, mode_byte base bs) depth 40 fits 3000

all_controls_lem :
    (n base : ℕ) (bs : List ℕ)
    → base + 8 * n ≤ length bs
    → Gives (λ (cs : List QuantumControlsPerMode). length cs ≡ n) (all_controls n base bs)
unfolding all_controls
all_controls_lem zero base bs h = Gives-ok _ [] refl
all_controls_lem (suc n) base bs h =
    Gives-bind _ _ _ _ (controls_at_lem base bs (omega arith)) (λ c any.
      Gives-bind _ _ _ _ (all_controls_lem n (base + 8) bs (omega arith))
        (λ cs e. Gives-ok _ (c ∷ cs) (ap suc e)))

-- No word is left out of a packet that holds them all.
quantum_ranges_lem :
    (n offset : ℕ) (bs : List ℕ)
    → offset + 4 * n ≤ length bs
    → Gives (λ (rs : List ℕ). length rs ≡ n) (quantum_ranges n offset bs)
unfolding quantum_ranges
quantum_ranges_lem zero offset bs h = Gives-ok _ [] refl
quantum_ranges_lem (suc n) offset bs h = rw (le→leb (offset + 4) (length bs) (omega arith)) (
    Gives-word_at _ 4 offset bs _ (omega arith) (λ r.
      Gives-bind _ _ _ _ (quantum_ranges_lem n (offset + 4) bs (omega arith))
        (λ rs e. Gives-ok _ (r ∷ rs) (ap suc e))))

rd_ranges_lem :
    (n offset : ℕ) (bs : List ℕ)
    → offset + 4 * n ≤ length bs
    → Gives (λ (rs : List ℕ). length rs ≡ n) (rd_ranges n offset bs)
unfolding rd_ranges
rd_ranges_lem zero offset bs h = Gives-ok _ [] refl
rd_ranges_lem (suc n) offset bs h = Gives-word_at _ 4 offset bs _ (omega arith) (λ r.
    Gives-bind _ _ _ _ (rd_ranges_lem n (offset + 4) bs (omega arith))
      (λ rs e. Gives-ok _ (r ∷ rs) (ap suc e)))

abbrev pub HasShape : ParsedQuantumStatus → Type 0
HasShape s = (length s.controls ≡ 4) × (length s.ranges ≡ 20)

quantum_fields_lem : (bs : List ℕ) → 228 ≤ length bs → Gives HasShape (parse_quantum_status bs)
unfolding parse_quantum_status at_least
quantum_fields_lem bs h =
    let long : ltb (length bs) 228 ≡ false = ground arith in
    rw long (
      Gives-byte_at _ 4 bs _ (omega arith) (λ status.
        Gives-word_at _ 2 14 bs _ (omega arith) (λ bearing_offset.
          Gives-byte_at _ 17 bs _ (omega arith) (λ interference_rejection.
            Gives-byte_at _ 20 bs _ (omega arith) (λ range_index.
              Gives-byte_at _ 21 bs _ (omega arith) (λ mode.
                Gives-bind _ _ _ _ (all_controls_lem 4 22 bs (omega arith)) (λ controls four.
                  Gives-byte_at _ 54 bs _ (omega arith) (λ target_expansion.
                    Gives-byte_at _ 59 bs _ (omega arith) (λ mbs_enabled.
                      Gives-bind _ _ _ _ (quantum_ranges_lem 20 148 bs (omega arith))
                        (λ ranges twenty. Gives-ok _ _ (four, twenty)))))))))))

pub record HasRdShape (is_hd : Bool) (s : ParsedRdStatus) : Type 0 where
  pub eleven : length s.ranges ≡ 11
  pub hd : s.is_hd ≡ is_hd

rd_shape :
    (is_hd : Bool) (s : ParsedRdStatus)
    → length s.ranges ≡ 11
    → s.is_hd ≡ is_hd
    → HasRdShape is_hd s
rd_shape is_hd s h k = record { eleven = h; hd = k }

pub rd_fields_lem :
    (is_hd : Bool) (bs : List ℕ)
    → 250 ≤ length bs
    → Gives (HasRdShape is_hd) (rd_status_fields is_hd bs)
unfolding rd_status_fields
rd_fields_lem is_hd bs h =
    Gives-bind _ _ _ _ (rd_ranges_lem 11 4 bs (omega arith))
      (λ ranges eleven. search (gives_rules, rd_shape) depth 60 fits 3000)

-- A Quantum status report of less than 228 bytes is refused as too short. Every other packet gives a
-- status with the controls of 4 modes and 20 ranges: no index is out of range, and no range is left out.
pub parse_quantum_status_lem :
    (bs : List ℕ)
    → ((length bs < 228) × (parse_quantum_status bs ≡ err (too_short 228 (length bs))))
      ⊎ ((228 ≤ length bs)
          × ((s : ParsedQuantumStatus) × (parse_quantum_status bs ≡ ok s) × HasShape s))
unfolding parse_quantum_status at_least
parse_quantum_status_lem bs = elim (Bool-cases (ltb (length bs) 228)) [
  | inl short ↦ inl (ltb→lt _ _ short, rw short refl)
  | inr long ↦
      let g = quantum_fields_lem bs (ground arith) in
      inr (ground arith, (g.value, g.result, g.holds))
]
