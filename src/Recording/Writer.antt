-- ===== src/Recording/Writer.antt =====
-- MrrWriter: the file is written from front to back, an index entry is kept for every hundredth
-- frame, and `finish` adds the index and the footer and writes the header again.
pub mod Content
pub mod Index
use mayara.Prelude.{ℕ, ◌+◌, ◌^◌, ◌%◌, List, [], ◌∷◌, ◌++◌, if◌then◌else◌, length, leb}
use mayara.Recording.Medium.{Medium, write_all, seek_start}
use mayara.Recording.Layout.{
  MrrHeader, MrrFooter, MrrIndexEntry, header_write, footer_write, entry_write, header_size,
  mrr_version,
}
use mayara.Recording.Frame
use mayara.Recording.Frame.{MrrFrame, len_u32}

pub record MrrWriter : Type 0 where
  pub writer : Medium
  pub header : MrrHeader
  pub frame_count : ℕ  -- u32
  pub last_timestamp_ms : ℕ  -- u64
  pub index : List MrrIndexEntry
  pub index_interval : ℕ  -- u32
  pub frames_since_index : ℕ  -- u32

-- The header that `new` composes: the sizes are `usize`, of 64 bits.
unfoldable pub new_header : ℕ → ℕ → ℕ → ℕ → ℕ → List ℕ → List ℕ → MrrHeader
new_header now radar_brand spokes_per_rev max_spoke_len pixel_values capabilities initial_state =
    let capabilities_end = header_size + length capabilities in
    record {
      version = mrr_version;
      flags = 0;
      radar_brand = radar_brand;
      spokes_per_rev = spokes_per_rev;
      max_spoke_len = max_spoke_len;
      pixel_values = pixel_values;
      start_time_ms = now;
      capabilities_offset = header_size;
      capabilities_len = len_u32 capabilities;
      initial_state_offset = capabilities_end;
      initial_state_len = len_u32 initial_state;
      frames_offset = capabilities_end + length initial_state;
    }

-- `MrrWriter::new`; `now` is the system clock's time.
unfoldable pub new : ℕ → Medium → ℕ → ℕ → ℕ → ℕ → List ℕ → List ℕ → MrrWriter
unfolding new_header
new now m radar_brand spokes_per_rev max_spoke_len pixel_values capabilities initial_state =
    let header =
      new_header now radar_brand spokes_per_rev max_spoke_len pixel_values capabilities
        initial_state in
    record {
      writer = write_all initial_state (write_all capabilities (header_write header m));
      header = header;
      frame_count = 0;
      last_timestamp_ms = 0;
      index = [];
      index_interval = 100;
      frames_since_index = 0;
    }

-- the index entry that `write_frame` makes first, if one is due
unfoldable pub index_frame : MrrWriter → MrrFrame → MrrWriter
index_frame w frame =
    if leb w.index_interval w.frames_since_index
    then (record w {
      index =
          w.index
          ++ (record { timestamp_ms = frame.timestamp_ms; file_offset = w.writer.pos } ∷ []);
      frames_since_index = 0;
    })
    else w

-- `MrrWriter::write_frame`; the counters are u32.
unfoldable pub write_frame : MrrWriter → MrrFrame → MrrWriter
write_frame w frame =
    let w' = index_frame w frame in
    record w' {
      writer = Frame.write frame w'.writer;
      frame_count = (w'.frame_count + 1) % 2 ^ 32;
      last_timestamp_ms = frame.timestamp_ms;
      frames_since_index = (w'.frames_since_index + 1) % 2 ^ 32;
    }

-- the loop of `finish` over the index
unfoldable pub write_index : List MrrIndexEntry → Medium → Medium
write_index [] m = m
write_index (e ∷ es) m = write_index es (entry_write e m)

-- the footer that `finish` writes
unfoldable pub finish_footer : MrrWriter → MrrFooter
finish_footer w = record {
  index_offset = w.writer.pos;
  index_count = length w.index % 2 ^ 32;
  frame_count = w.frame_count;
  duration_ms = w.last_timestamp_ms;
}

-- `MrrWriter::finish`: what is in the file then
unfoldable pub finish : MrrWriter → Medium
finish w =
    let m = write_index w.index w.writer in
    let m = footer_write (finish_footer w) m in header_write w.header (seek_start 0 m)

-- A whole recording: what the frames of a session leave in the file.
unfoldable pub write_frames : MrrWriter → List MrrFrame → MrrWriter
write_frames w [] = w
write_frames w (f ∷ fs) = write_frames (write_frame w f) fs
