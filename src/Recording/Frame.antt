-- ===== src/Recording/Frame.antt =====
-- A frame of an MRR file (MrrFrame): its constructors, `write`, `read` and `size`.
pub mod Roundtrip
use mayara.Prelude.{
  ℕ, ◌+◌, ◌^◌, ◌%◌, List, [], ◌∷◌, ◌++◌, Bool, true, false, Option, none, some, if◌then◌else◌,
  length, ◌==◌, not, to_le_bytes, from_le_bytes,
}
use mayara.Recording.Medium.{IoResult, ok, err, ◌>>=◌, Medium, write_all, read_exact}

-- FRAME_FLAG_HAS_STATE
abbrev pub frame_flag_has_state : ℕ
frame_flag_has_state = 0x01

-- `data` is `frame_data` here.
pub record MrrFrame : Type 0 where
  pub timestamp_ms : ℕ  -- u64
  pub flags : ℕ  -- u8
  pub frame_data : List ℕ
  pub state_delta : Option (List ℕ)

-- `flags & FRAME_FLAG_HAS_STATE != 0`, the lowest bit
abbrev pub has_state : ℕ → Bool
has_state flags = not (flags % 2 == 0)

-- `MrrFrame::new`
unfoldable pub new : ℕ → List ℕ → MrrFrame
new timestamp_ms bs = record {
  timestamp_ms = timestamp_ms;
  flags = 0;
  frame_data = bs;
  state_delta = none;
}

-- `MrrFrame::with_state`
unfoldable pub with_state : ℕ → List ℕ → List ℕ → MrrFrame
with_state timestamp_ms bs delta = record {
  timestamp_ms = timestamp_ms;
  flags = frame_flag_has_state;
  frame_data = bs;
  state_delta = some delta;
}

-- `.len() as u32`
abbrev pub len_u32 : List ℕ → ℕ
len_u32 bs = length bs % 2 ^ 32

-- the `if let Some(ref state)` of `write`
abbrev pub write_state : Option (List ℕ) → Medium → Medium
write_state none m = m
write_state (some state) m = write_all state (write_all (to_le_bytes 4 (len_u32 state)) m)

-- `MrrFrame::write`
unfoldable pub write : MrrFrame → Medium → Medium
write f m =
    let m = write_all (to_le_bytes 8 f.timestamp_ms) m in
    let m = write_all (f.flags ∷ []) m in
    let m = write_all (to_le_bytes 4 (len_u32 f.frame_data)) m in
    let m = write_all f.frame_data m in if has_state f.flags then write_state f.state_delta m else m

-- the state delta that `read` finds behind the data
unfoldable pub read_state : Medium → IoResult (Option (List ℕ) × Medium)
read_state m = do
  (len_buf, m) ← read_exact 4 m
  (state, m) ← read_exact (from_le_bytes len_buf) m
  ok (some state, m)

-- `MrrFrame::read`; `flags_buf[0]` is the word of the one byte read
unfoldable pub read : Medium → IoResult (MrrFrame × Medium)
read m = do
  (ts_buf, m) ← read_exact 8 m
  (flags_buf, m) ← read_exact 1 m
  let flags = from_le_bytes flags_buf
  (len_buf, m) ← read_exact 4 m
  (bs, m) ← read_exact (from_le_bytes len_buf) m
  (delta, m) ← (if has_state flags then read_state m else ok (none, m))
  ok (
    record {
      timestamp_ms = from_le_bytes ts_buf;
      flags = flags;
      frame_data = bs;
      state_delta = delta;
    },
    m,
  )

-- `MrrFrame::size`
unfoldable pub size : MrrFrame → ℕ
size f =
    let base = 8 + 1 + 4 + length f.frame_data in
    elim f.state_delta [ none ↦ base | some state ↦ base + 4 + length state ]
