-- ===== src/Recording/Session/Playback.antt =====
-- Playing back a recorded session, with MrrReader on the file of MrrWriter.
use mayara.Prelude.{
  ℕ, ◌^◌, ◌<◌, ◌≡◌, refl, sym, ap, ◌∙◌, List, [], ◌∷◌, ◌++◌, arith, length, All, drop,
  length-append,
}
use mathlib.Core.List.{append_assoc}
use mayara.Recording.Medium.{Medium, ok, seek_start, append, AtEnd, append-AtEnd, append-append}
use mayara.Recording.Layout.{header_bytes, footer_bytes}
use mayara.Recording.Layout.Roundtrip.{IsHeader, IsFooter, length-header_bytes}
use mayara.Recording.Frame.{MrrFrame}
use mayara.Recording.Frame.Roundtrip.{IsFrame}
use mayara.Recording.Writer.{MrrWriter, new_header, new, write_frame, write_frames, finish_footer}
use mayara.Recording.Writer.Content.{
  frames_bytes, index_bytes, header-write_frames, frame_count-write_frames, writer-write_frames,
  content-finish, writer-new,
}
use mayara.Recording.Reader.{MrrReader, open_reader}
use mayara.Recording.Reader.Frames.{Describes, Plays, Plays_ahead, open_reader_lem, drop_to}
use mayara.Recording.Session.{
  empty_file, Session, IsRecordable, session_header, start, written, recording, last_timestamp,
}

last_timestamp-write_frames :
    (w : MrrWriter) (fs : List MrrFrame)
    → (write_frames w fs).last_timestamp_ms ≡ last_timestamp w.last_timestamp_ms fs
unfolding write_frames write_frame
last_timestamp-write_frames w [] = refl
last_timestamp-write_frames w (f ∷ fs) = last_timestamp-write_frames (write_frame w f) fs

last_timestamp-lt :
    (t : ℕ) (fs : List MrrFrame) → t < 256 ^ 8 → All IsFrame fs → last_timestamp t fs < 256 ^ 8
last_timestamp-lt t [] h v = h
last_timestamp-lt t (f ∷ fs) h v = last_timestamp-lt f.timestamp_ms fs (omega arith) v.1

session_header-IsHeader : (s : Session) → IsRecordable s → IsHeader (session_header s)
unfolding new_header
session_header-IsHeader s v = omega arith

session_header-Describes :
    (s : Session) → IsRecordable s → Describes (session_header s) s.capabilities s.initial_state
unfolding new_header
session_header-Describes s v = omega arith

header-start : (s : Session) → (start s).header ≡ session_header s
unfolding new
header-start s = refl

pub content-start :
    (s : Session)
    → (start s).writer
      ≡ append empty_file (header_bytes (session_header s) ++ (s.capabilities ++ s.initial_state))
content-start s =
    writer-new s.now s.radar_brand s.spokes_per_rev s.max_spoke_len s.pixel_values s.capabilities
      s.initial_state

pub start-AtEnd : (s : Session) → AtEnd (start s).writer
start-AtEnd s = rw (content-start s) (append-AtEnd empty_file _ refl)

regroup_parts :
    (s : Session)
    → (header_bytes (session_header s) ++ (s.capabilities ++ s.initial_state))
        ++ frames_bytes s.frames
      ≡ header_bytes (session_header s)
        ++ (s.capabilities ++ (s.initial_state ++ frames_bytes s.frames))
regroup_parts s = simp append_assoc

-- the writer's file after all frames
pub written_lem :
    (s : Session)
    → IsRecordable s
    → (written s).writer
      ≡ append empty_file (
          header_bytes (session_header s)
          ++ (s.capabilities ++ (s.initial_state ++ frames_bytes s.frames)))
written_lem s v =
    writer-write_frames (start s) s.frames (start-AtEnd s) v.frames
    ∙ (rw (content-start s) (append-append empty_file _ (frames_bytes s.frames)))
    ∙ ap (append empty_file) (regroup_parts s)

written-AtEnd : (s : Session) → IsRecordable s → AtEnd (written s).writer
written-AtEnd s v = rw (written_lem s v) (append-AtEnd empty_file _ refl)

header-written : (s : Session) → (written s).header ≡ session_header s
header-written s = header-write_frames (start s) s.frames ∙ header-start s

-- The footer counts the frames and holds the time of the last one.
pub footer_counts :
    (s : Session)
    → IsRecordable s
    → ((finish_footer (written s)).frame_count ≡ length s.frames)
      × ((finish_footer (written s)).duration_ms ≡ last_timestamp 0 s.frames)
unfolding finish_footer new
footer_counts s v = (
  frame_count-write_frames (start s) s.frames (omega arith) ∙ omega arith,
  last_timestamp-write_frames (start s) s.frames,
)

pos-written : (s : Session) → IsRecordable s → (written s).writer.pos < 256 ^ 8
pos-written s v = omega (
  arith,
  ap (λ (m : Medium). m.pos) (written_lem s v),
  length-append (header_bytes (session_header s))
      (s.capabilities ++ (s.initial_state ++ frames_bytes s.frames)),
  length-append s.capabilities (s.initial_state ++ frames_bytes s.frames),
  length-append s.initial_state (frames_bytes s.frames),
  length-header_bytes (session_header s),
  v.total,
)

finish_footer-IsFooter : (s : Session) → IsRecordable s → IsFooter (finish_footer (written s))
unfolding finish_footer
finish_footer-IsFooter s v = record {
  index_offset = pos-written s v;
  index_count = omega arith;
  frame_count = omega (arith, (footer_counts s v).0);
  duration_ms =
      omega (arith, (footer_counts s v).1, last_timestamp-lt 0 s.frames (omega arith) v.frames);
}

abbrev pub rear : Session → List ℕ
rear s = index_bytes (written s).index ++ footer_bytes (finish_footer (written s))

-- The file, part by part.
pub content-recording :
    (s : Session)
    → IsRecordable s
    → (recording s).content
      ≡ header_bytes (session_header s)
        ++ (s.capabilities
            ++ (s.initial_state
                ++ ((frames_bytes s.frames ++ index_bytes (written s).index)
                    ++ footer_bytes (finish_footer (written s)))))
content-recording s v =
    content-finish (written s) (s.capabilities ++ (s.initial_state ++ frames_bytes s.frames))
      (written-AtEnd s v) (rw (header-written s) (ap (λ (m : Medium). m.content) (written_lem s v)))
    ∙ (rw (header-written s) (simp append_assoc))

-- the reader that opening the recording gives
abbrev pub player : Session → MrrReader
player s = record {
  reader = record { content = (recording s).content; pos = (session_header s).frames_offset };
  header = session_header s;
  footer = finish_footer (written s);
  capabilities = s.capabilities;
  initial_state = s.initial_state;
  current_frame = 0;
}

opens_lem :
    (s : Session) → IsRecordable s → open_reader (seek_start 0 (recording s)) ≡ ok (player s)
opens_lem s v =
    ap
      (λ (bs : List ℕ).
        open_reader (seek_start 0 (record { content = bs; pos = (recording s).pos })))
      (content-recording s v)
    ∙ open_reader_lem (session_header s) (finish_footer (written s)) s.capabilities s.initial_state
        (frames_bytes s.frames ++ index_bytes (written s).index) (session_header-IsHeader s v)
        (finish_footer-IsFooter s v) (session_header-Describes s v) (recording s).pos
    ∙ ap
        (λ (bs : List ℕ). ok (record (player s) {
          reader = record { content = bs; pos = (session_header s).frames_offset };
        }))
        (sym (content-recording s v))

pub frames_at :
    (s : Session)
    → (session_header s).frames_offset
      ≡ length (header_bytes (session_header s) ++ (s.capabilities ++ s.initial_state))
unfolding new_header
frames_at s = omega (
  arith,
  length-append (header_bytes (session_header s)) (s.capabilities ++ s.initial_state),
  length-append s.capabilities s.initial_state,
  length-header_bytes (session_header s),
)

pub frames_ahead :
    (s : Session)
    → IsRecordable s
    → drop (session_header s).frames_offset (recording s).content ≡ frames_bytes s.frames ++ rear s
frames_ahead s v =
    ap (drop (session_header s).frames_offset) (content-recording s v ∙ (simp append_assoc refl))
    ∙ drop_to (session_header s).frames_offset
        (header_bytes (session_header s) ++ (s.capabilities ++ s.initial_state))
        (frames_bytes s.frames ++ rear s) (frames_at s)

pub plays_lem : (s : Session) → IsRecordable s → Plays (player s) s.frames
plays_lem s v =
    Plays_ahead s.frames (rear s) (player s) v.frames (frames_ahead s v)
      (omega (arith, (footer_counts s v).0))

-- A recording of any session within the format's bounds can be opened. The reader then holds the
-- header that was composed at the start, the capabilities and the initial state as they were given;
-- its footer counts the frames and holds the last frame's time; and reading on returns exactly the
-- frames that were written, in order, and then the end.
pub recording_plays :
    (s : Session)
    → IsRecordable s
    → (r : MrrReader) × (open_reader (seek_start 0 (recording s)) ≡ ok r)
      × (r.header ≡ session_header s)
      × (r.capabilities ≡ s.capabilities)
      × (r.initial_state ≡ s.initial_state)
      × (r.footer.frame_count ≡ length s.frames)
      × (r.footer.duration_ms ≡ last_timestamp 0 s.frames)
      × Plays r s.frames
recording_plays s v = (
  player s,
  opens_lem s v,
  refl,
  refl,
  refl,
  (footer_counts s v).0,
  (footer_counts s v).1,
  plays_lem s v,
)
