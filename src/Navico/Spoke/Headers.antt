-- ===== src/Navico/Spoke/Headers.antt =====
-- Spoke headers as they are laid out in a packet, and what the parser makes of them.
use mayara.Prelude.{
  ℕ, ◌*◌, ◌/◌, ◌%◌, ◌<◌, ◌≤◌, ◌^◌, ◌≡◌, ◌∙◌, refl, ◌&&◌, ◌||◌, not, List, [], ◌∷◌, ◌++◌, arith,
  ◌==◌, if◌then◌else◌, from_le_bytes-to_le_bytes, Bool-cases, inl, inr,
}
use native.Mathlib.Nat.{mod-eq_of_lt, mul-le-mul}
use mayara.Packet.{invalid_packet, Outcome, ok, err}
use mayara.Packet.Struct.{Bincode, layout}
use mayara.Packet.Head.{int_fields, read_head}
use mayara.Navico.{extract_heading}
use mayara.Navico.Spoke.{br4g_spoke_header, range_4g, spoke_4g, checked, parse_4g_spoke_header}

-- The fields of a header: `u` stands for those that are passed over.
abbrev pub header_values : ℕ → ℕ → ℕ → ℕ → ℕ → ℕ → ℕ → List ℕ
header_values header_len status large_range angle heading small_range u =
    header_len
    ∷ (status
        ∷ (u ∷ (u ∷ (large_range ∷ (angle ∷ (heading ∷ (small_range ∷ (u ∷ (u ∷ (u ∷ []))))))))))

-- The range in meters with no bound on the product.
abbrev pub meters : ℕ → ℕ → ℕ
meters large small =
    if large == 0x80 then (if small == 0xffff then 0 else small / 4) else large * small / 512

no_overflow : (large small : ℕ) → large < 2 ^ 16 → small < 2 ^ 16 → large * small < 2 ^ 32
no_overflow large small h k =
    let e : large * small ≤ 65535 * 65535 =
      mul-le-mul {n₂ = 65535} {m₂ = 65535} (omega arith) (omega arith) in
    omega (arith, e)

range_4g_lem :
    (large small : ℕ) → large < 2 ^ 16 → small < 2 ^ 16 → range_4g large small ≡ meters large small
unfolding range_4g
range_4g_lem large small h k =
    let e : large * small % 2 ^ 32 ≡ large * small = mod-eq_of_lt (no_overflow large small h k) in
    rw e refl

tests :
    {A : Type 0} (len status : ℕ) (r : Outcome A)
    → (if not (len == 24)
        then err invalid_packet
        else (if not (status == 0x02) && not (status == 0x12) then err invalid_packet else r))
      ≡ (if (len == 24) && ((status == 0x02) || (status == 0x12)) then r else err invalid_packet)
tests len status r = elim (Bool-cases (len == 24)) [
  | inr e ↦ rw e refl
  | inl e ↦ elim (Bool-cases (status == 0x02)) [
    | inl f ↦ rw (e, f) refl
    | inr f ↦ elim (Bool-cases (status == 0x12)) [
      | inl g ↦ rw (e, f, g) refl
      | inr g ↦ rw (e, f, g) refl
    ]
  ]
]

-- A 4G or HALO spoke header of values that fit their fields, laid out in front of anything, is refused
-- unless its length is 24 and its status 0x02 or 0x12. Else the range is the one in meters, with no
-- overflow in the product of the two ranges, the angle is half of the raw angle, and the
-- heading is the one that its word holds.
pub parse_4g_spoke_header_lem :
    (bin : Bincode) (header_len status large_range angle heading small_range u : ℕ) (rest : List ℕ)
    → header_len < 2 ^ 8
    → status < 2 ^ 8
    → large_range < 2 ^ 16
    → angle < 2 ^ 16
    → heading < 2 ^ 16
    → small_range < 2 ^ 16
    → parse_4g_spoke_header bin (
        layout (
          int_fields br4g_spoke_header
            (header_values header_len status large_range angle heading small_range u))
        ++ rest)
      ≡ (if (header_len == 24) && ((status == 0x02) || (status == 0x12))
          then ok (meters large_range small_range, angle / 2, extract_heading heading)
          else err invalid_packet)
unfolding parse_4g_spoke_header checked spoke_4g
parse_4g_spoke_header_lem bin len status large angle heading small u rest h0 h1 h2 h3 h4 h5 =
    let byte = λ (v : ℕ) (h : v < 2 ^ 8). from_le_bytes-to_le_bytes 1 v h in
    let word = λ (v : ℕ) (h : v < 2 ^ 16). from_le_bytes-to_le_bytes 2 v h in
    let vs = header_values len status large angle heading small u in
    read_head bin br4g_spoke_header vs rest (λ header. checked header (ok (spoke_4g header)))
    ∙ (rw
        (
          byte len h0,
          byte status h1,
          word large h2,
          word angle h3,
          word heading h4,
          word small h5,
          range_4g_lem large small h2 h5,
        )
        (tests len status (ok (meters large small, angle / 2, extract_heading heading))))
