-- ===== src/Furuno/Spoke.antt =====
-- Furuno spoke frames: the header, the four encodings and the loop over the sweeps of a frame.
pub mod Runs
pub mod Bounds
pub mod FrameLoop
use mayara.Prelude.{
  ℕ, zero, suc, ◌+◌, ◌-◌, ◌*◌, ◌/◌, ◌%◌, ◌^◌, Bool, true, false, List, [], ◌∷◌, ◌++◌, Option, none,
  some, if◌then◌else◌, ltb, leb, ◌==◌, not, length, get_elem?, get_or, take, drop, map, min,
}
use mayara.Packet.{ParseError, too_short, invalid_header}

-- `Result<A, ParseError>`
pub data ParseResult {ℓ} (A : Type ℓ) : Type ℓ where
  ok : A → ParseResult A
  err : ParseError → ParseResult A

pub record SpokeFrameHeader : Type 0 where
  pub sweep_count : ℕ
  pub sweep_len : ℕ
  pub encoding : ℕ
  pub have_heading : Bool
  pub range_index : ℕ

pub record ParsedSpoke : Type 0 where
  pub angle : ℕ
  pub heading : Option ℕ
  pub pixels : List ℕ

-- `data[i]`, which the guards keep in range
abbrev pub byte_at : List ℕ → ℕ → ℕ
byte_at bs i = get_or bs i 0

unfoldable pub is_spoke_frame : List ℕ → Bool
is_spoke_frame bs = if leb 16 (length bs) then byte_at bs 0 == 0x02 else false

-- Bit fields as quotients and remainders: `x & 0x07` is `x % 8`, `(x & 0x18) >> 3` is
-- `x / 8 % 4`, and `(x & 0x30) >> 3` is twice `x / 16 % 4`.
unfoldable pub parse_spoke_header : List ℕ → ParseResult SpokeFrameHeader
parse_spoke_header bs =
    if ltb (length bs) 16
    then err (too_short 16 (length bs))
    else (if not (byte_at bs 0 == 0x02)
        then err (invalid_header (0x02 ∷ []) (byte_at bs 0 ∷ []))
        else ok (record {
          sweep_count = byte_at bs 9 / 2;
          sweep_len = byte_at bs 11 % 8 * 2 ^ 8 + byte_at bs 10;
          encoding = byte_at bs 11 / 8 % 4;
          have_heading = not (2 * (byte_at bs 15 / 16 % 4) == 0);
          range_index = byte_at bs 12;
        }))

-- `for _ in 0..repeat { if spoke.len() >= sweep_len { break; } spoke.push(strength); }`
unfoldable pub push_repeat : ℕ → ℕ → ℕ → List ℕ → List ℕ
push_repeat zero sweep_len strength spoke = spoke
push_repeat (suc n) sweep_len strength spoke =
    let rest = push_repeat n sweep_len strength (spoke ++ (strength ∷ [])) in
    if leb sweep_len (length spoke) then spoke else rest

-- The same with the pixel of the previous spoke at this place, 0 where it has none; the last
-- strength that was pushed is kept.
unfoldable pub push_previous : ℕ → ℕ → List ℕ → ℕ → List ℕ → List ℕ × ℕ
push_previous zero sweep_len prev strength spoke = (spoke, strength)
push_previous (suc n) sweep_len prev strength spoke =
    let s = get_or prev (length spoke) 0 in
    let rest = push_previous n sweep_len prev s (spoke ++ (s ∷ [])) in
    if leb sweep_len (length spoke) then (spoke, strength) else rest

-- `(used + 3) & !3`
abbrev pub round_up_4 : ℕ → ℕ
round_up_4 used = (used + 3) / 4 * 4

-- `repeat = data[used] >> 1; if repeat == 0 { repeat = 0x80; }`
abbrev pub repeat_of : ℕ → ℕ
repeat_of b = if b / 2 == 0 then 0x80 else b / 2

-- the same of encoding 3: two bits of tag, and 0x40 for 0
abbrev pub repeat_of_3 : ℕ → ℕ
repeat_of_3 b = if b / 4 == 0 then 0x40 else b / 4

-- The encoding's own state beside the spoke: encoding 2 keeps no strength (0 throughout).
unfoldable pub decode_encoding_0 : List ℕ → ℕ → List ℕ × ℕ
decode_encoding_0 bs sweep_len = let len = min sweep_len (length bs) in (take len bs, len)

-- The body of the loop of each run-length encoding, at one byte.
abbrev pub Body : Type 0
Body = ℕ → List ℕ → ℕ → List ℕ × ℕ

unfoldable pub body_1 : ℕ → Body
body_1 sweep_len b spoke strength =
    if b % 2 == 0
    then (spoke ++ (b ∷ []), b)
    else (push_repeat (repeat_of b) sweep_len strength spoke, strength)

unfoldable pub body_2 : ℕ → List ℕ → Body
body_2 sweep_len prev b spoke strength =
    if b % 2 == 0
    then (spoke ++ (b ∷ []), strength)
    else ((push_previous (repeat_of b) sweep_len prev 0 spoke).0, strength)

unfoldable pub body_3 : ℕ → List ℕ → Body
body_3 sweep_len prev b spoke strength =
    if b % 4 == 0
    then (spoke ++ (b ∷ []), b)
    else (if b % 2 == 0
        then push_previous (repeat_of_3 b) sweep_len prev strength spoke
        else (push_repeat (repeat_of_3 b) sweep_len strength spoke, strength))

-- `while spoke.len() < sweep_len && used < data.len()`, over the bytes from `used` on.
unfoldable pub decode_loop : Body → ℕ → List ℕ → List ℕ → ℕ → ℕ → List ℕ × ℕ
decode_loop body sweep_len [] spoke strength used = (spoke, used)
decode_loop body sweep_len (b ∷ bs) spoke strength used =
    let rest =
      decode_loop body sweep_len bs (body b spoke strength).0 (body b spoke strength).1
        (used + 1) in
    if ltb (length spoke) sweep_len then rest else (spoke, used)

-- A run-length decoder: from an empty spoke and strength 0; the bytes used are rounded up.
unfoldable pub decode_runs : Body → List ℕ → ℕ → List ℕ × ℕ
decode_runs body bs sweep_len =
    let (spoke, used) = decode_loop body sweep_len bs [] 0 0 in (spoke, round_up_4 used)

unfoldable pub decode_encoding_1 : List ℕ → ℕ → List ℕ × ℕ
unfolding decode_runs body_1
decode_encoding_1 bs sweep_len = decode_runs (body_1 sweep_len) bs sweep_len

unfoldable pub decode_encoding_2 : List ℕ → List ℕ → ℕ → List ℕ × ℕ
unfolding decode_runs body_2
decode_encoding_2 bs prev sweep_len = decode_runs (body_2 sweep_len prev) bs sweep_len

unfoldable pub decode_encoding_3 : List ℕ → List ℕ → ℕ → List ℕ × ℕ
unfolding decode_runs body_3
decode_encoding_3 bs prev sweep_len = decode_runs (body_3 sweep_len prev) bs sweep_len

-- the `match header.encoding`
unfoldable pub decode_sweep : SpokeFrameHeader → ℕ → List ℕ → List ℕ → List ℕ × ℕ
decode_sweep h sweep_idx prev bs =
    if h.encoding == 0
    then decode_encoding_0 bs h.sweep_len
    else (if h.encoding == 1
        then decode_encoding_1 bs h.sweep_len
        else (if h.encoding == 2
            then (if sweep_idx == 0
                then decode_encoding_1 bs h.sweep_len
                else decode_encoding_2 bs prev h.sweep_len)
            else (if h.encoding == 3 then decode_encoding_3 bs prev h.sweep_len else ([], 0))))

-- one sweep, its four bytes of angle and heading at `offset`, and what it decodes to
unfoldable pub parsed_spoke : SpokeFrameHeader → List ℕ → ℕ → List ℕ → ParsedSpoke
parsed_spoke h bs offset decoded = record {
  angle = byte_at bs (offset + 1) * 2 ^ 8 + byte_at bs offset;
  heading =
      if h.have_heading
      then some (byte_at bs (offset + 3) * 2 ^ 8 + byte_at bs (offset + 2))
      else none;
  pixels = map (λ b. b / 2 ^ 2) decoded;
}

-- `for sweep_idx in 0..header.sweep_count`, on the sweeps left; the result is the spokes and the
-- previous spoke that is left for the next frame.
unfoldable pub sweep_loop :
    SpokeFrameHeader → List ℕ → ℕ → ℕ → ℕ → List ℕ → List ParsedSpoke × List ℕ
sweep_loop h bs zero sweep_idx offset prev = ([], prev)
sweep_loop h bs (suc n) sweep_idx offset prev =
    let (decoded, used) = decode_sweep h sweep_idx prev (drop (offset + 4) bs) in
    let rest = sweep_loop h bs n (sweep_idx + 1) (offset + 4 + used) decoded in
    if ltb (length bs) (offset + 4)
    then ([], prev)
    else (parsed_spoke h bs offset decoded ∷ rest.0, rest.1)

-- `parse_spoke_frame`, with the previous spoke before and after
unfoldable pub parse_spoke_frame : List ℕ → List ℕ → ParseResult (List ParsedSpoke) × List ℕ
parse_spoke_frame bs prev = elim (parse_spoke_header bs) [
  | err e ↦ (err e, prev)
  | ok h ↦ let (spokes, prev') = sweep_loop h bs h.sweep_count 0 16 prev in (ok spokes, prev')
]
