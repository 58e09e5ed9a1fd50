-- ===== src/Recording/Tests.antt =====
-- A small session, on which the theorems on recordings are applied.
use mayara.Prelude.{
  ◌++◌, ℕ, zero, suc, ◌≡◌, refl, [], ◌∷◌, none, some, arith, length, All, replicate, to_le_bytes,
}
use mayara.Recording.Medium.{ok, seek_start}
use mayara.Recording.Layout.{MrrHeader, header_bytes, header_of_bytes}
use mayara.Recording.Layout.Roundtrip.{header_of_bytes-header_bytes}
use mayara.Recording.Frame.{MrrFrame, write, read, size}
use mayara.Recording.Frame.Roundtrip.{IsFrame, read-write}
use mayara.Recording.Reader.{MrrReader, open_reader, seek_to_timestamp}
use mayara.Recording.Reader.Frames.{Plays}
use mayara.Recording.Writer.Content.{frames_bytes}
use mayara.Recording.Writer.Index.{Entries}
use mayara.Recording.Session.{Session, IsRecordable, session_header, written, recording}
use mayara.Recording.Session.Playback.{recording_plays}
use mayara.Recording.Session.Seek.{seek_plays, index_of_session, anywhere}
use mayara.Recording.Session.Overrun.{seek_overruns}
use mayara.Recording.Session.Playback.{rear}
use mayara.Recording.Medium.{ahead}

abbrev first : MrrFrame
first = record { timestamp_ms = 10; flags = 0; frame_data = 1 ∷ 2 ∷ 3 ∷ []; state_delta = none }

abbrev second : MrrFrame
second = record {
  timestamp_ms = 35;
  flags = 1;
  frame_data = 4 ∷ [];
  state_delta = some (b'{' ∷ b'}' ∷ []);
}

abbrev session : Session
session = record {
  now = 1700000000000;
  radar_brand = 2;
  spokes_per_rev = 8192;
  max_spoke_len = 883;
  pixel_values = 64;
  capabilities = b'{' ∷ b'}' ∷ [];
  initial_state = b'[' ∷ b']' ∷ [];
  frames = first ∷ second ∷ [];
}

first-IsFrame : IsFrame first
first-IsFrame = record {
  timestamp_ms = omega arith;
  flags = omega arith;
  frame_data = omega arith;
  state_delta = refl;
}

second-IsFrame : IsFrame second
second-IsFrame = record {
  timestamp_ms = omega arith;
  flags = omega arith;
  frame_data = omega arith;
  state_delta = (refl, omega arith);
}

frames_bytes_short : length (frames_bytes session.frames) ≡ 36
unfolding to_le_bytes
frames_bytes_short = refl

session-IsRecordable : IsRecordable session
session-IsRecordable = record {
  now = omega arith;
  radar_brand = omega arith;
  spokes_per_rev = omega arith;
  max_spoke_len = omega arith;
  pixel_values = omega arith;
  capabilities = omega arith;
  initial_state = omega arith;
  frames = (first-IsFrame, (second-IsFrame, tt));
  frame_count = omega arith;
  total = omega (arith, frames_bytes_short);
}

recording_plays_example :
    (r : MrrReader) × (open_reader (seek_start 0 (recording session)) ≡ ok r)
    × (r.header ≡ session_header session)
    × (r.capabilities ≡ b'{' ∷ b'}' ∷ [])
    × (r.initial_state ≡ b'[' ∷ b']' ∷ [])
    × (r.footer.frame_count ≡ 2)
    × (r.footer.duration_ms ≡ 35)
    × Plays r (first ∷ second ∷ [])
recording_plays_example = recording_plays session session-IsRecordable

-- the reader stands somewhere in the header, and has counted seven frames
seek_plays_example :
    (r : MrrReader) × (seek_to_timestamp 20 (anywhere session 9 7) ≡ some (ok r))
    × Plays r (second ∷ [])
seek_plays_example = seek_plays session 9 7 20 session-IsRecordable (omega arith)

-- after the two frames of the session, ninety-nine more
abbrev many : Session
many = record session { frames = first ∷ second ∷ replicate 99 first }

replicate-IsFrame : (n : ℕ) → All IsFrame (replicate n first)
replicate-IsFrame zero = tt
replicate-IsFrame (suc n) = (first-IsFrame, replicate-IsFrame n)

frames_bytes_many : length (frames_bytes many.frames) ≡ 1620
unfolding to_le_bytes
frames_bytes_many = refl

many-IsRecordable : IsRecordable many
many-IsRecordable = record {
  now = omega arith;
  radar_brand = omega arith;
  spokes_per_rev = omega arith;
  max_spoke_len = omega arith;
  pixel_values = omega arith;
  capabilities = omega arith;
  initial_state = omega arith;
  frames = (first-IsFrame, (second-IsFrame, replicate-IsFrame 99));
  frame_count = omega arith;
  total = omega (arith, frames_bytes_many);
}

index_of_session_example :
    (length (written many).index ≡ 1)
    × Entries
        (session_header many).frames_offset
        (first ∷ second ∷ replicate 99 first)
        0
        (written many).index
index_of_session_example = index_of_session many many-IsRecordable

-- a frame with a state delta, after one byte
read-write_example :
    ((write second (record { content = 7 ∷ []; pos = 1 })).pos ≡ 21)
    × (read (seek_start 1 (write second (record { content = 7 ∷ []; pos = 1 })))
        ≡ ok (second, write second (record { content = 7 ∷ []; pos = 1 })))
unfolding size
read-write_example = read-write second (record { content = 7 ∷ []; pos = 1 }) refl second-IsFrame

abbrev header : MrrHeader
header = record {
  version = 1;
  flags = 0;
  radar_brand = 2;
  spokes_per_rev = 8192;
  max_spoke_len = 883;
  pixel_values = 64;
  start_time_ms = 1700000000000;
  capabilities_offset = 256;
  capabilities_len = 2;
  initial_state_offset = 258;
  initial_state_len = 2;
  frames_offset = 260;
}

header_of_bytes-header_bytes_example : header_of_bytes (header_bytes header) ≡ ok header
header_of_bytes-header_bytes_example = header_of_bytes-header_bytes header (omega arith)

-- the frame number 100 is the last one, at 10 ms
seek_overruns_example :
    (r : MrrReader) × (seek_to_timestamp 10 (anywhere many 9 7) ≡ some (ok r))
    × (ahead r.reader ≡ frames_bytes (first ∷ []) ++ rear many)
    × ¬ Plays r (first ∷ [])
seek_overruns_example =
    seek_overruns many 9 7 10 first [] many-IsRecordable refl (omega arith) (omega arith) (λ e. cc)
