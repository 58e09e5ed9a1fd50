-- ===== src/Recording/Reader.antt =====
-- MrrReader: opening a recording, reading its frames in order, seeking and rewinding.
pub mod Frames
use mayara.Prelude.{
  ℕ, zero, suc, ◌+◌, ◌-◌, ◌%◌, ◌^◌, List, Bool, true, false, Option, none, some, if◌then◌else◌, leb,
}
use mayara.Recording.Medium.{
  IoResult, ok, err, ◌>>=◌, Medium, read_exact, seek_start, seek_end_back, seek_back,
}
use mayara.Recording.Layout.{
  MrrHeader, MrrFooter, MrrIndexEntry, header_read, footer_read, entry_read, footer_size,
}
use mayara.Recording.Frame
use mayara.Recording.Frame.{MrrFrame}

pub record MrrReader : Type 0 where
  pub reader : Medium
  pub header : MrrHeader
  pub footer : MrrFooter
  pub capabilities : List ℕ
  pub initial_state : List ℕ
  pub current_frame : ℕ  -- u32

-- `MrrReader::open`
unfoldable pub open_reader : Medium → IoResult MrrReader
open_reader m = do
  (header, m) ← header_read m
  let m = seek_start header.capabilities_offset m
  (capabilities, m) ← read_exact header.capabilities_len m
  let m = seek_start header.initial_state_offset m
  (initial_state, m) ← read_exact header.initial_state_len m
  m ← seek_end_back footer_size m
  (footer, m) ← footer_read m
  ok (record {
    reader = seek_start header.frames_offset m;
    header = header;
    footer = footer;
    capabilities = capabilities;
    initial_state = initial_state;
    current_frame = 0;
  })

-- `MrrReader::read_frame`; the counter stays below `frame_count`, a u32.
unfoldable pub read_frame : MrrReader → IoResult (Option MrrFrame × MrrReader)
read_frame r = if leb r.footer.frame_count r.current_frame then ok (none, r) else (do
  (f, m) ← Frame.read r.reader
  ok (some f, record r { reader = m; current_frame = r.current_frame + 1 }))

-- the loop of `seek_to_timestamp` over the index, with the best entry so far
unfoldable pub scan_index :
    ℕ → ℕ → Option MrrIndexEntry → Medium → IoResult (Option MrrIndexEntry × Medium)
scan_index zero target best m = ok (best, m)
scan_index (suc n) target best m = do
  (e, m) ← entry_read m
  let rest = scan_index n target (some e) m
  if leb e.timestamp_ms target then rest else ok (best, m)

-- `best_entry.map(|e| e.file_offset).unwrap_or(frames_offset)`
abbrev pub seek_pos : Option MrrIndexEntry → MrrHeader → ℕ
seek_pos none h = h.frames_offset
seek_pos (some e) h = e.file_offset

-- the loop of `seek_to_timestamp` over the frames, on fuel: `none` is a loop that has not ended
unfoldable pub skip_frames : ℕ → ℕ → MrrReader → Option (IoResult MrrReader)
skip_frames zero target r = none
skip_frames (suc fuel) target r = elim (read_frame r) [
  | err e ↦ some (err e)
  | ok (none, r') ↦ some (ok r')
  | ok (some f, r') ↦
      let rest = skip_frames fuel target r' in
      if leb target f.timestamp_ms
      then some (do
        m ← seek_back (Frame.size f) r'.reader
        ok (record r' { reader = m; current_frame = r'.current_frame - 1 }))
      else rest
]

-- `MrrReader::seek_to_timestamp`: a round reads a frame, so `frame_count + 1` rounds are enough.
unfoldable pub seek_to_timestamp : ℕ → MrrReader → Option (IoResult MrrReader)
seek_to_timestamp target r =
    elim (scan_index r.footer.index_count target none (seek_start r.footer.index_offset r.reader)) [
      | err e ↦ some (err e)
      | ok (best, m) ↦
          skip_frames (r.footer.frame_count + 1) target
            (record r { reader = seek_start (seek_pos best r.header) m; current_frame = 0 })
    ]

-- `MrrReader::rewind`
unfoldable pub rewind : MrrReader → MrrReader
rewind r = record r { reader = seek_start r.header.frames_offset r.reader; current_frame = 0 }
