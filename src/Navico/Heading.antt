-- ===== src/Navico/Heading.antt =====
-- The headings that a spoke header can carry.
use mayara.Prelude.{
  ℕ, ◌+◌, ◌%◌, ◌^◌, ◌<◌, ◌≡◌, ◌⊎◌, inl, inr, refl, none, some, arith, Bool-cases, ◌&&◌,
}
use mayara.Navico.{is_heading_true, is_valid_heading, extract_heading}

-- A 16-bit word holds a heading exactly if it is the mark of a true heading, 0x4000, plus a number below
-- 4096, which is then the heading.
pub extract_heading_lem :
    (x : ℕ)
    → x < 2 ^ 16
    → ((h : ℕ) × (h < 4096) × (x ≡ 0x4000 + h) × (extract_heading x ≡ some h))
      ⊎ ((x < 0x4000 ⊎ 0x4FFF < x) × (extract_heading x ≡ none))
unfolding extract_heading is_heading_true is_valid_heading
extract_heading_lem x b = elim (Bool-cases (is_valid_heading x && is_heading_true x)) [
  | inl e ↦ inl (x % 4096, omega arith, ground arith, rw e refl)
  | inr e ↦ inr (ground arith, rw e refl)
]
