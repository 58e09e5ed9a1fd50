-- ===== src/Recording/Session.antt =====
-- A recording session: what a radar hands to MrrWriter, and the file that comes of it.
pub mod Seek
pub mod Overrun
pub mod Playback
use mayara.Prelude.{
  ℕ, ◌+◌, ◌^◌, ◌%◌, ◌≤◌, ◌<◌, ◌≡◌, refl, sym, ap, ◌∙◌, List, [], ◌∷◌, ◌++◌, arith, length, All,
  length-append,
}
use mathlib.Core.List.{append-nil, append_assoc}
use mayara.Recording.Medium.{
  Medium, IoResult, ok, seek_start, append, AtEnd, append-AtEnd, append-append,
}
use mayara.Recording.Layout.{MrrHeader, header_bytes, header_size, mrr_version, footer_bytes}
use mayara.Recording.Layout.Roundtrip.{IsHeader, IsFooter, length-header_bytes}
use mayara.Recording.Frame.{MrrFrame}
use mayara.Recording.Frame.Roundtrip.{IsFrame}
use mayara.Recording.Writer.{
  MrrWriter, new_header, new, write_frame, write_frames, finish_footer, finish,
}
use mayara.Recording.Writer.Content.{
  frames_bytes, index_bytes, header-write_frames, frame_count-write_frames, writer-write_frames,
  content-finish, writer-new,
}
use mayara.Recording.Reader.{MrrReader, open_reader}
use mayara.Recording.Reader.Frames.{Describes, Plays, Plays_ahead, open_reader_lem, drop_to}

abbrev pub empty_file : Medium
empty_file = record { content = []; pos = 0 }

-- What a radar gives to the recorder; the words fit their machine types.
pub record Session : Type 0 where
  pub now : ℕ
  pub radar_brand : ℕ
  pub spokes_per_rev : ℕ
  pub max_spoke_len : ℕ
  pub pixel_values : ℕ
  pub capabilities : List ℕ
  pub initial_state : List ℕ
  pub frames : List MrrFrame

pub record IsRecordable (s : Session) : Type 0 where
  pub now : s.now < 256 ^ 8
  pub radar_brand : s.radar_brand < 256 ^ 4
  pub spokes_per_rev : s.spokes_per_rev < 256 ^ 4
  pub max_spoke_len : s.max_spoke_len < 256 ^ 4
  pub pixel_values : s.pixel_values < 256 ^ 4
  pub capabilities : length s.capabilities < 2 ^ 32
  pub initial_state : length s.initial_state < 2 ^ 32
  pub frames : All IsFrame s.frames
  pub frame_count : length s.frames < 2 ^ 32
  pub total :
      header_size + length s.capabilities + length s.initial_state + length (frames_bytes s.frames)
      < 2 ^ 64

-- the header of the session's file
abbrev pub session_header : Session → MrrHeader
session_header s =
    new_header s.now s.radar_brand s.spokes_per_rev s.max_spoke_len s.pixel_values s.capabilities
      s.initial_state

abbrev pub start : Session → MrrWriter
start s =
    new s.now empty_file s.radar_brand s.spokes_per_rev s.max_spoke_len s.pixel_values
      s.capabilities s.initial_state

-- the writer after all frames
abbrev pub written : Session → MrrWriter
written s = write_frames (start s) s.frames

-- the finished file
abbrev pub recording : Session → Medium
recording s = finish (written s)

-- The timestamp of the last frame.
abbrev pub last_timestamp : ℕ → List MrrFrame → ℕ
last_timestamp t [] = t
last_timestamp t (f ∷ fs) = last_timestamp f.timestamp_ms fs
