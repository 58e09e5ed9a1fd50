-- ===== src/Furuno/Spoke/FrameLoop.antt =====
-- What `parse_spoke_frame` returns: when it accepts a packet, and the shape of the spokes.
use mayara.Prelude.{
  ℕ, zero, suc, ◌+◌, ◌*◌, ◌/◌, ◌^◌, ◌≤◌, ◌<◌, ◌≡◌, ◌⊎◌, refl, Bool, true, false, List, [], ◌∷◌,
  arith, if◌then◌else◌, ltb, length, drop, map, length-map, Bool-cases, inl, inr, All, IsByte,
  Option, none, some,
}
use mayara.Packet.{ParseError}
use mayara.Furuno.Spoke.{
  SpokeFrameHeader, ParsedSpoke, ParseResult, ok, err, is_spoke_frame, parse_spoke_header,
  decode_sweep, parsed_spoke, sweep_loop, parse_spoke_frame, byte_at,
}
use mayara.Furuno.Spoke.Bounds.{decode_sweep-IsSweep, All-drop, get_or-IsByte}

-- A heading is given exactly if the header says so.
abbrev pub Headed : Bool → Option ℕ → Type 0
Headed true (some heading) = heading < 65536
Headed false none = Unit {0}
Headed _ _ = ⊥

-- A spoke as the header announces it: six-bit pixels, an angle and a heading of 16 bits.
pub record IsSpoke (h : SpokeFrameHeader) (s : ParsedSpoke) : Type 0 where
  pub short : length s.pixels ≤ h.sweep_len
  pub six_bits : All (λ p. p < 64) s.pixels
  pub angle : s.angle < 65536
  pub heading : Headed h.have_heading s.heading

All-shift : (xs : List ℕ) → All IsByte xs → All (λ p. p < 64) (map (λ b. b / 2 ^ 2) xs)
All-shift [] h = tt
All-shift (x ∷ xs) h = (omega (arith, h.0), All-shift xs h.1)

parsed_spoke-IsSpoke :
    (h : SpokeFrameHeader) (bs : List ℕ) (offset : ℕ) (decoded : List ℕ)
    → All IsByte bs
    → All IsByte decoded
    → length decoded ≤ h.sweep_len
    → IsSpoke h (parsed_spoke h bs offset decoded)
unfolding parsed_spoke
parsed_spoke-IsSpoke h bs offset decoded hb hd short = record {
  short = omega (arith, length-map decoded (λ (b : ℕ). b / 2 ^ 2));
  six_bits = All-shift decoded hd;
  angle = omega (arith, get_or-IsByte bs offset hb, get_or-IsByte bs (offset + 1) hb);
  heading =
      headed h.have_heading (byte_at bs (offset + 3) * 2 ^ 8 + byte_at bs (offset + 2))
        (omega (arith, get_or-IsByte bs (offset + 3) hb, get_or-IsByte bs (offset + 2) hb));
}
  where
    headed : (t : Bool) (v : ℕ) → v < 65536 → Headed t (if t then some v else none)
    headed true v hv = hv
    headed false v hv = tt

-- The spokes of a frame, and the previous spoke that is kept for the next one.
pub record IsFrame (h : SpokeFrameHeader) (out : List ParsedSpoke × List ℕ) : Type 0 where
  pub spokes : All (IsSpoke h) (out.0)
  pub previous : All IsByte (out.1)

sweep_loop-IsFrame :
    (h : SpokeFrameHeader) (bs : List ℕ) (n i offset : ℕ) (prev : List ℕ)
    → All IsByte bs
    → All IsByte prev
    → IsFrame h (sweep_loop h bs n i offset prev)
      × (length ((sweep_loop h bs n i offset prev).0) ≤ n)
unfolding sweep_loop
sweep_loop-IsFrame h bs zero i offset prev hb hp =
    (record { spokes = tt; previous = hp }, omega arith)
sweep_loop-IsFrame h bs (suc n) i offset prev hb hp =
    elim (Bool-cases (ltb (length bs) (offset + 4))) [
      | inl short ↦ rw short (record { spokes = tt; previous = hp }, omega arith)
      | inr long ↦
          let sweep = decode_sweep h i prev (drop (offset + 4) bs) in
          let v =
            decode_sweep-IsSweep h i prev (drop (offset + 4) bs)
              (All-drop IsByte (offset + 4) bs hb) hp in
          let (rest, count) =
            sweep_loop-IsFrame h bs n (i + 1) (offset + 4 + sweep.1) (sweep.0) hb v.bytes in
          rw long (
            record {
              spokes = (parsed_spoke-IsSpoke h bs offset (sweep.0) hb v.bytes v.short, rest.spokes);
              previous = rest.previous;
            },
            omega (arith, count),
          )
    ]

header_fits :
    (bs : List ℕ) (h : SpokeFrameHeader)
    → All IsByte bs
    → parse_spoke_header bs ≡ ok h
    → (h.sweep_count < 128) × (h.sweep_len < 2048) × (h.encoding < 4)
unfolding parse_spoke_header
header_fits bs h hb e =
    ground (arith, get_or-IsByte bs 9 hb, get_or-IsByte bs 10 hb, get_or-IsByte bs 11 hb)

accepted :
    (bs : List ℕ) (h : SpokeFrameHeader) → parse_spoke_header bs ≡ ok h → is_spoke_frame bs ≡ true
unfolding parse_spoke_header is_spoke_frame
accepted bs h e = ground arith

rejected :
    (bs : List ℕ) (x : ParseError) → parse_spoke_header bs ≡ err x → is_spoke_frame bs ≡ false
unfolding parse_spoke_header is_spoke_frame
rejected bs x e = ground arith

header_cases :
    (bs : List ℕ)
    → ((x : ParseError) × (parse_spoke_header bs ≡ err x))
      ⊎ ((h : SpokeFrameHeader) × (parse_spoke_header bs ≡ ok h))
header_cases bs = go (parse_spoke_header bs) refl
  where
    go :
        (r : ParseResult SpokeFrameHeader)
        → parse_spoke_header bs ≡ r
        → ((x : ParseError) × (parse_spoke_header bs ≡ err x))
          ⊎ ((h : SpokeFrameHeader) × (parse_spoke_header bs ≡ ok h))
    go (ok h) e = inr (h, e)
    go (err x) e = inl (x, e)

-- A packet of bytes is parsed exactly if `is_spoke_frame` accepts it. A rejected one leaves the
-- previous spoke as it was. From an accepted one come at most as many spokes as its header counts
-- (fewer than 128), each with at most its number of pixels (fewer than 2048) of six bits, with an
-- angle of 16 bits and with a heading exactly if the header announces headings; and the previous
-- spoke that is kept is made of bytes.
pub parse_spoke_frame_lem :
    (bs prev : List ℕ)
    → All IsByte bs
    → All IsByte prev
    → (is_spoke_frame bs ≡ false) × ((e : ParseError) × (parse_spoke_frame bs prev ≡ (err e, prev)))
      ⊎ (is_spoke_frame bs ≡ true)
        × ((h : SpokeFrameHeader) × (out : List ParsedSpoke × List ℕ) × (parse_spoke_header bs
              ≡ ok h)
            × (parse_spoke_frame bs prev ≡ (ok (out.0), out.1))
            × IsFrame h out
            × (length (out.0) ≤ h.sweep_count)
            × (h.sweep_count < 128)
            × (h.sweep_len < 2048))
unfolding parse_spoke_frame
parse_spoke_frame_lem bs prev hb hp = elim (header_cases bs) [
  | inl (x, e) ↦ inl (rejected bs x e, (x, rw (e, parse_spoke_frame)))
  | inr (h, e) ↦
      let (frame, count) = sweep_loop-IsFrame h bs h.sweep_count 0 16 prev hb hp in
      let (sweeps, len, _) = header_fits bs h hb e in
      inr (
        accepted bs h e,
        (
          h,
          sweep_loop h bs h.sweep_count 0 16 prev,
          e,
          rw (e, parse_spoke_frame),
          frame,
          count,
          sweeps,
          len,
        ),
      )
]
