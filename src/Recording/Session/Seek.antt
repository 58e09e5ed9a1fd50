-- ===== src/Recording/Session/Seek.antt =====
-- Seeking in a recorded session: the index, and what `seek_to_timestamp` gives.
use mayara.Prelude.{
  ℕ, zero, suc, ◌+◌, ◌-◌, ◌/◌, ◌≤◌, ◌<◌, ◌≡◌, refl, ap, ◌∙◌, List, [], ◌∷◌, ◌++◌, arith, length,
  All, drop, true, false, Bool-cases, inl, inr, leb, le→leb, ltb, if◌then◌else◌, none, some,
  drop-add, drop-append,
}
use mathlib.Core.List.{append_assoc}
use mayara.Recording.Medium.{Medium, ok, seek_start, seek_back, ahead, ahead_advance}
use mayara.Recording.Layout.{MrrFooter, MrrIndexEntry}
use mayara.Recording.Frame.{MrrFrame, size}
use mayara.Recording.Frame.Roundtrip.{IsFrame, frame_bytes, length-frame_bytes}
use mayara.Recording.Writer.{new, finish_footer}
use mayara.Recording.Writer.Content.{frames_bytes}
use mayara.Recording.Writer.Index.{
  PointsAt, Entries, Indexed, write_frames-Indexed, length-index, frames_bytes-append,
}
use mayara.Recording.Reader.{
  MrrReader, read_frame, scan_index, skip_frames, seek_to_timestamp, rewind,
}
use mayara.Recording.Reader.Frames.{Plays, Plays_ahead, read_frame-ahead}
use mayara.Recording.Session.{Session, IsRecordable, session_header, start, written, recording}
use mayara.Recording.Session.Playback.{
  player, frames_ahead, rear, frames_at, content-start, start-AtEnd, footer_counts, plays_lem,
}

pos-start :
    (s : Session)
    → (start s).writer.pos ≡ (session_header s).frames_offset + length (frames_bytes [])
pos-start s = ap (λ (m : Medium). m.pos) (content-start s) ∙ omega (arith, frames_at s)

start-Indexed : (s : Session) → Indexed (session_header s).frames_offset (start s) []
unfolding new
start-Indexed s = record {
  at_end = start-AtEnd s;
  place = pos-start s;
  interval = refl;
  counted = omega arith;
  since_le = omega arith;
  since_pos = λ h. h;
  entries = tt;
}

-- One frame in a hundred is indexed, and the entries are those of the frames number 100, 200, ...
-- (from 0), with their timestamps and their offsets in the file.
pub index_of_session :
    (s : Session)
    → IsRecordable s
    → (length (written s).index ≡ (length s.frames - 1) / 100)
      × Entries (session_header s).frames_offset s.frames 0 (written s).index
index_of_session s v =
    let i =
      write_frames-Indexed (session_header s).frames_offset (start s) [] s.frames (start-Indexed s)
        v.frames in
    (length-index i, i.entries)

pub All-append {ℓ κ} : {A : Type ℓ} (P : A → Type κ) (xs ys : List A) → All P (xs ++ ys) → All P ys
All-append P [] ys h = h
All-append P (x ∷ xs) ys h = All-append P xs ys h.1

-- What lies in the file from an entry's offset on.
pub ahead_of_entry :
    (s : Session) (n : ℕ) (e : MrrIndexEntry)
    → IsRecordable s
    → (p : PointsAt (session_header s).frames_offset s.frames n e)
    → drop e.file_offset (recording s).content ≡ frames_bytes (p.frame ∷ p.after) ++ rear s
ahead_of_entry s n e v p =
    let parts : frames_bytes s.frames ++ rear s
        ≡ frames_bytes p.before ++ (frames_bytes (p.frame ∷ p.after) ++ rear s) =
      ap (λ fs. frames_bytes fs ++ rear s) p.split
      ∙ (rw (frames_bytes-append p.before (p.frame ∷ p.after))
          (append_assoc (frames_bytes p.before) (frames_bytes (p.frame ∷ p.after)) (rear s))) in
    rw
      (
        p.offset,
        drop-add (session_header s).frames_offset (length (frames_bytes p.before))
            (recording s).content,
        frames_ahead s v,
        parts,
      )
      (drop-append (frames_bytes p.before) _)

-- From the first frame at or behind the target on.
abbrev pub from_time : ℕ → List MrrFrame → List MrrFrame
from_time target [] = []
from_time target (f ∷ fs) = if leb target f.timestamp_ms then f ∷ fs else from_time target fs

-- The frames that are passed over to get there.
abbrev pub passed : ℕ → List MrrFrame → ℕ
passed target [] = 0
passed target (f ∷ fs) = if leb target f.timestamp_ms then 0 else suc (passed target fs)

-- The reader's place in the file: it stands before these frames, and has counted `n`.
pub record Stands (r : MrrReader) (fs : List MrrFrame) (rest : List ℕ) (n : ℕ) : Type 0 where
  pub lies : ahead r.reader ≡ frames_bytes fs ++ rest
  pub counter : r.current_frame ≡ n

-- A late frame was read, and the reader goes back to it.
step_back :
    (f : MrrFrame) (r : MrrReader)
    → seek_back (size f) (record r.reader { pos = r.reader.pos + size f }) ≡ ok r.reader
unfolding seek_back
step_back f r =
    let room : ltb (r.reader.pos + size f) (size f) ≡ false = ground arith in
    let back : r.reader.pos + size f - size f ≡ r.reader.pos = omega arith in rw (room, back)

read_none : (r : MrrReader) → r.footer.frame_count ≤ r.current_frame → read_frame r ≡ ok (none, r)
unfolding read_frame
read_none r h = rw (le→leb _ _ h)

-- the reader behind the frame that lies ahead
abbrev behind : MrrFrame → MrrReader → MrrReader
behind f r = record r {
  reader = record r.reader { pos = r.reader.pos + size f };
  current_frame = r.current_frame + 1;
}

abbrev Skipped : ℕ → ℕ → List MrrFrame → List ℕ → ℕ → MrrReader → Type 0
Skipped fuel target fs rest n r =
    (r' : MrrReader) × (skip_frames fuel target r ≡ some (ok r'))
    × Stands r' (from_time target fs) rest (n + passed target fs)
    × (r'.footer ≡ r.footer)
    × (r'.header ≡ r.header)

module _ (fuel target : ℕ) (f : MrrFrame) (fs : List MrrFrame) (rest : List ℕ) (n : ℕ)
    (r : MrrReader) (v : IsFrame f) (st : Stands r (f ∷ fs) rest n)
    (more : n < r.footer.frame_count) where
  lies_first : ahead r.reader ≡ frame_bytes f ++ (frames_bytes fs ++ rest)
  lies_first = st.lies ∙ append_assoc (frame_bytes f) (frames_bytes fs) rest

  reads_first : read_frame r ≡ ok (some f, behind f r)
  reads_first =
      read_frame-ahead f (frames_bytes fs ++ rest) r v lies_first (omega (arith, st.counter))

  Stands-behind : Stands (behind f r) fs rest (n + 1)
  Stands-behind = record {
    lies = rw (← length-frame_bytes f) (ahead_advance (frame_bytes f) _ r.reader lies_first);
    counter = omega (arith, st.counter);
  }

  skip_late : leb target f.timestamp_ms ≡ true → Skipped (suc fuel) target (f ∷ fs) rest n r
  unfolding skip_frames
  skip_late late = (
    record r { current_frame = r.current_frame + 1 - 1 },
    rw (reads_first, skip_frames, late, step_back f r),
    rw late (record { lies = st.lies; counter = omega (arith, st.counter) }),
    refl,
    refl,
  )

  skip_early :
      leb target f.timestamp_ms ≡ false
      → Skipped fuel target fs rest (n + 1) (behind f r)
      → Skipped (suc fuel) target (f ∷ fs) rest n r
  unfolding skip_frames
  skip_early early (r', runs, stands, foot, head) =
      let count : n + 1 + passed target fs ≡ n + suc (passed target fs) = omega arith in
      (r', rw (reads_first, skip_frames, early) runs, rw early (rw count at stands), foot, head)

-- Skipping ends at the first frame that is late enough, if the counter stops the reader behind the
-- last frame, or if there is such a frame.
pub skip_frames_lem :
    (fuel target : ℕ) (fs : List MrrFrame) (rest : List ℕ) (n : ℕ) (r : MrrReader)
    → length fs < fuel
    → All IsFrame fs
    → Stands r fs rest n
    → n + length fs ≤ r.footer.frame_count
    → (from_time target fs ≡ [] → n + length fs ≡ r.footer.frame_count)
    → Skipped fuel target fs rest n r
unfolding skip_frames
skip_frames_lem zero target fs rest n r h v st le e = absurd (omega arith)
skip_frames_lem (suc fuel) target [] rest n r h v st le e =
    let count : n + 0 ≡ n = omega arith in
    (r, rw (read_none r (omega (arith, e refl, st.counter)), skip_frames), rw count st, refl, refl)
skip_frames_lem (suc fuel) target (f ∷ fs) rest n r h v st le e =
    elim (Bool-cases (leb target f.timestamp_ms)) [
      | inl late ↦ skip_late fuel target f fs rest n r v.0 st (omega arith) late
      | inr early ↦ skip_early fuel target f fs rest n r v.0 st (omega arith) early (
          skip_frames_lem fuel target fs rest (n + 1) (behind f r) (omega arith) v.1
            (Stands-behind fuel target f fs rest n r v.0 st (omega arith)) (omega arith)
            (λ none_left. omega (arith, e (rw early none_left))))
    ]

-- a reader of the session's file, wherever it stands and whatever it has counted
abbrev pub anywhere : Session → ℕ → ℕ → MrrReader
anywhere s p c = record (player s) {
  reader = record { content = (recording s).content; pos = p };
  current_frame = c;
}

Plays_standing :
    (fs : List MrrFrame) (rest : List ℕ) (n : ℕ) (r : MrrReader)
    → All IsFrame fs
    → Stands r fs rest n
    → n + length fs ≡ r.footer.frame_count
    → Plays r fs
Plays_standing fs rest n r v st e = Plays_ahead fs rest r v st.lies (omega (arith, st.counter))

pub from_time-All :
    (target : ℕ) (fs : List MrrFrame) → All IsFrame fs → All IsFrame (from_time target fs)
from_time-All target [] v = tt
from_time-All target (f ∷ fs) v = elim (Bool-cases (leb target f.timestamp_ms)) [
  | inl late ↦ rw late v
  | inr early ↦ rw early (from_time-All target fs v.1)
]

pub passed-from_time :
    (target : ℕ) (fs : List MrrFrame) → passed target fs + length (from_time target fs) ≡ length fs
passed-from_time target [] = omega arith
passed-from_time target (f ∷ fs) = ground (arith, passed-from_time target fs)

no_index :
    (s : Session) → IsRecordable s → length s.frames ≤ 100 → (player s).footer.index_count ≡ 0
unfolding finish_footer
no_index s v few =
    let empty : length (written s).index ≡ 0 = omega (arith, (index_of_session s v).0) in rw empty

-- In a recording of at most a hundred frames, from wherever the reader stands, seeking ends, and
-- reading on returns the frames from the first one on whose time is not before the target.
pub seek_plays :
    (s : Session) (p c target : ℕ)
    → IsRecordable s
    → length s.frames ≤ 100
    → (r : MrrReader) × (seek_to_timestamp target (anywhere s p c) ≡ some (ok r))
      × Plays r (from_time target s.frames)
unfolding seek_to_timestamp scan_index seek_start
seek_plays s p c target v few =
    let count = (footer_counts s v).0 in
    let m : Medium = record {
      content = (recording s).content;
      pos = (player s).footer.index_offset;
    } in
    let scanned : scan_index (player s).footer.index_count target none m ≡ ok (none, m) =
      rw (no_index s v few) in
    let (r, runs, stands, foot, _) =
      skip_frames_lem ((player s).footer.frame_count + 1) target s.frames (rear s) 0
        (anywhere s (session_header s).frames_offset 0) (omega (arith, count)) v.frames
        (record { lies = frames_ahead s v; counter = refl }) (omega (arith, count))
        (λ _. omega (arith, count)) in
    (
      r,
      rw (scanned, seek_to_timestamp) runs,
      Plays_standing (from_time target s.frames) (rear s) (0 + passed target s.frames) r
          (from_time-All target s.frames v.frames) stands
          (omega (
            arith,
            count,
            passed-from_time target s.frames,
            ap (λ (f : MrrFooter). f.frame_count) foot,
          )),
    )

-- After `rewind` all frames are read again, wherever the reader stood.
rewind_plays : (s : Session) (p c : ℕ) → IsRecordable s → Plays (rewind (anywhere s p c)) s.frames
unfolding rewind seek_start
rewind_plays s p c v = plays_lem s v
