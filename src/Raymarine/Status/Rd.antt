-- ===== src/Raymarine/Status/Rd.antt =====
-- The RD status parser on every packet.
use mayara.Prelude.{
  ℕ, ◌≤◌, ◌<◌, ◌≡◌, refl, ◌⊎◌, inl, inr, ◌&&◌, not, Bool, true, false, List, [], ◌∷◌, arith, length,
  take, ltb, leb, Bool-cases, ltb→lt, slice, from_le_bytes, if◌then◌else◌, ◌==◌, ◌≢◌,
}
use mayara.Packet.{too_short, invalid_header, ok, err, ◌>>=◌, at_least, byte_at, word_at}
use mayara.Raymarine.Status.{ParsedRdStatus, first_4, rd_status_fields, parse_rd_status}
use mayara.Raymarine.Status.Reports.{HasRdShape, rd_fields_lem}

-- The word in front of an RD status report.
abbrev pub head_word : List ℕ → ℕ
head_word bs = from_le_bytes (slice 0 4 bs)

rd_head :
    (bs : List ℕ)
    → 250 ≤ length bs
    → parse_rd_status bs ≡ (
        if not (head_word bs == 0x010001) && not (head_word bs == 0x018801)
        then (first_4 bs >>= λ actual.
            err (invalid_header (0x01 ∷ (0x00 ∷ (0x01 ∷ (0x00 ∷ [])))) actual))
        else rd_status_fields (head_word bs == 0x018801) bs)
unfolding parse_rd_status at_least word_at
rd_head bs h =
    let long : ltb (length bs) 250 ≡ false = ground arith in
    let four : leb 4 (length bs) ≡ true = ground arith in rw (long, four) refl

abbrev pub rd_expected : List ℕ
rd_expected = 0x01 ∷ (0x00 ∷ (0x01 ∷ (0x00 ∷ [])))

first_4_lem : (bs : List ℕ) → 4 ≤ length bs → first_4 bs ≡ ok (take 4 bs)
unfolding first_4 byte_at
first_4_lem (a ∷ (b ∷ (c ∷ (d ∷ bs)))) h = refl
first_4_lem (a ∷ (b ∷ (c ∷ []))) h = absurd (omega arith)
first_4_lem (a ∷ (b ∷ [])) h = absurd (omega arith)
first_4_lem (a ∷ []) h = absurd (omega arith)
first_4_lem [] h = absurd (omega arith)

rd_other_head :
    (bs : List ℕ)
    → 250 ≤ length bs
    → head_word bs ≢ 0x010001
    → head_word bs ≢ 0x018801
    → parse_rd_status bs ≡ err (invalid_header rd_expected (take 4 bs))
rd_other_head bs h a b =
    let e : (head_word bs == 0x010001) ≡ false = ground arith in
    let f : (head_word bs == 0x018801) ≡ false = ground arith in
    rw (rd_head bs h, e, f, first_4_lem bs (omega arith)) refl

rd_known_head :
    (bs : List ℕ) (hd : Bool)
    → 250 ≤ length bs
    → (not (head_word bs == 0x010001) && not (head_word bs == 0x018801)) ≡ false
    → (head_word bs == 0x018801) ≡ hd
    → (s : ParsedRdStatus) × (parse_rd_status bs ≡ ok s) × HasRdShape hd s
rd_known_head bs hd h known e =
    let g = rd_fields_lem hd bs h in (g.value, rw (rd_head bs h, known, e) (g.result), g.holds)

-- An RD status report of less than 250 bytes is refused as too short; one of that length whose first word
-- is neither 0x010001 nor 0x018801 is refused with its first four bytes. Every other packet gives a
-- status with 11 ranges, which is of an HD radar exactly if the word is 0x018801: no index is out of range.
pub parse_rd_status_lem :
    (bs : List ℕ)
    → ((length bs < 250) × (parse_rd_status bs ≡ err (too_short 250 (length bs))))
      ⊎ (((250 ≤ length bs)
            × (head_word bs ≢ 0x010001)
            × (head_word bs ≢ 0x018801)
            × (parse_rd_status bs ≡ err (invalid_header rd_expected (take 4 bs))))
          ⊎ (((250 ≤ length bs)
                × (head_word bs ≡ 0x010001)
                × ((s : ParsedRdStatus) × (parse_rd_status bs ≡ ok s) × HasRdShape false s))
              ⊎ ((250 ≤ length bs)
                  × (head_word bs ≡ 0x018801)
                  × ((s : ParsedRdStatus) × (parse_rd_status bs ≡ ok s) × HasRdShape true s))))
unfolding parse_rd_status at_least
parse_rd_status_lem bs = elim (Bool-cases (ltb (length bs) 250)) [
  | inl short ↦ inl (ltb→lt _ _ short, rw short refl)
  | inr long ↦
      let n : 250 ≤ length bs = ground arith in
      elim (Bool-cases (head_word bs == 0x010001)) [
        | inl regular ↦
            inr
              (inr (inl (n, ground arith, rd_known_head bs false n (ground arith) (ground arith))))
        | inr other ↦ elim (Bool-cases (head_word bs == 0x018801)) [
          | inl hd ↦ inr (inr (inr (n, ground arith, rd_known_head bs true n (ground arith) hd)))
          | inr neither ↦ inr (
              inl (n, ground arith, ground arith, rd_other_head bs n (ground arith) (ground arith)))
        ]
      ]
]
