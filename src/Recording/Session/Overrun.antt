-- ===== src/Recording/Session/Overrun.antt =====
-- Seeking through an entry of the index, and the count of frames behind it.
use mayara.Prelude.{
  ℕ, ◌+◌, ◌≤◌, ◌<◌, ◌≡◌, ◌≢◌, ◌⊎◌, refl, sym, ap, ◌∙◌, List, [], ◌∷◌, ◌++◌, arith, length, All,
  length-append, drop, false, Bool-cases, inl, inr, leb, le→leb, leb→le, Option, none, some,
  drop-append, length-drop,
}
use mathlib.Core.List.{append_assoc, append-nil}
use mayara.Recording.Medium.{Medium, IoResult, IoError, ok, err, seek_start, ahead}
use mayara.Recording.Layout.{MrrFooter, MrrIndexEntry, header_bytes, footer_bytes, index_entry_size}
use mayara.Recording.Layout.Roundtrip.{IsEntry, entry_bytes, entry_read-ahead}
use mayara.Recording.Frame
use mayara.Recording.Frame.{MrrFrame, size}
use mayara.Recording.Frame.Roundtrip.{IsFrame}
use mayara.Recording.Writer.{finish_footer, new_header}
use mayara.Recording.Writer.Content.{frames_bytes, index_bytes}
use mayara.Recording.Writer.Index.{PointsAt, frames_bytes-append}
use mayara.Recording.Reader.{MrrReader, read_frame, scan_index, seek_to_timestamp}
use mayara.Recording.Reader.Frames.{Plays, drop_to}
use mayara.Recording.Session.{Session, IsRecordable, session_header, written, recording}
use mayara.Recording.Session.Playback.{player, rear, footer_counts, content-recording, written_lem}
use mayara.Recording.Session.Seek.{
  anywhere, from_time, passed, passed-from_time, ahead_of_entry, skip_frames_lem, All-append,
  index_of_session,
}

IoResult-cases {ℓ} :
    {A : Type ℓ} (x : IoResult A) → ((e : IoError) × (x ≡ err e)) ⊎ ((a : A) × (x ≡ ok a))
IoResult-cases (err e) = inl (e, refl)
IoResult-cases (ok a) = inr (a, refl)

read_frame-none :
    (r r' : MrrReader) → read_frame r ≡ ok (none, r') → r.footer.frame_count ≤ r.current_frame
unfolding read_frame
read_frame-none r r' h = elim (Bool-cases (leb r.footer.frame_count r.current_frame)) [
  | inl done ↦ leb→le _ _ done
  | inr more ↦ elim (IoResult-cases (Frame.read r.reader)) [
    | inl (e, bad) ↦ absurd (cc (h, more, bad))
    | inr (a, good) ↦ absurd (cc (h, more, good))
  ]
]

abbrev reader_of : MrrReader → IoResult (Option MrrFrame × MrrReader) → MrrReader
reader_of r (ok x) = x.1
reader_of r (err e) = r

abbrev after_frame : MrrReader → Medium → MrrReader
after_frame r m = record r { reader = m; current_frame = r.current_frame + 1 }

stepped :
    (r r' : MrrReader) (f : MrrFrame) (a : MrrFrame × Medium)
    → read_frame r ≡ ok (some f, r')
    → leb r.footer.frame_count r.current_frame ≡ false
    → Frame.read r.reader ≡ ok a
    → (r'.current_frame ≡ r.current_frame + 1) × (r'.footer ≡ r.footer)
unfolding read_frame
stepped r r' f a h more good =
    let runs : read_frame r ≡ ok (some (a.0), after_frame r (a.1)) = rw (more, good, read_frame) in
    let same : r' ≡ after_frame r (a.1) = ap (reader_of r) (sym h ∙ runs) in
    (ap (λ (x : MrrReader). x.current_frame) same, ap (λ (x : MrrReader). x.footer) same)

read_frame-some :
    (r r' : MrrReader) (f : MrrFrame)
    → read_frame r ≡ ok (some f, r')
    → (r'.current_frame ≡ r.current_frame + 1) × (r'.footer ≡ r.footer)
unfolding read_frame
read_frame-some r r' f h = elim (Bool-cases (leb r.footer.frame_count r.current_frame)) [
  | inl done ↦ absurd (cc (h, done))
  | inr more ↦ elim (IoResult-cases (Frame.read r.reader)) [
    | inl (e, bad) ↦ absurd (cc (h, more, bad))
    | inr (a, good) ↦ stepped r r' f a h more good
  ]
]

-- Playing to the end takes the count to that of the footer.
Plays-count :
    {r : MrrReader} {fs : List MrrFrame}
    → Plays r fs
    → r.footer.frame_count ≤ r.current_frame + length fs
Plays-count {r = r} (Plays.finished e) = omega (arith, read_frame-none r r e)
Plays-count {r = r} (Plays.next {r' = r'} {f = f} e p) =
    let (count, foot) = read_frame-some r r' f e in
    omega (arith, count, ap (λ (m : MrrFooter). m.frame_count) foot, Plays-count p)

index_place :
    (s : Session) → IsRecordable s → drop (written s).writer.pos (recording s).content ≡ rear s
index_place s v =
    ap (drop (written s).writer.pos) (content-recording s v ∙ (simp append_assoc refl))
    ∙ drop_to (written s).writer.pos
        (header_bytes (session_header s)
          ++ (s.capabilities ++ (s.initial_state ++ frames_bytes s.frames)))
        (rear s) (ap (λ (m : Medium). m.pos) (written_lem s v) ∙ omega arith)

scan_one :
    (target : ℕ) (e : MrrIndexEntry) (rest : List ℕ) (m : Medium)
    → IsEntry e
    → ahead m ≡ entry_bytes e ++ rest
    → e.timestamp_ms ≤ target
    → scan_index 1 target none m ≡ ok (some e, record m { pos = m.pos + index_entry_size })
unfolding scan_index
scan_one target e rest m v a early =
    rw (entry_read-ahead e rest m v a, scan_index, le→leb e.timestamp_ms target early)

tail_at :
    (n : ℕ) (before after fs : List MrrFrame)
    → fs ≡ before ++ after
    → length before ≡ n
    → drop n fs ≡ after
tail_at n before after fs split e = rw (split, ← e) (drop-append before after)

module _ (s : Session) (v : IsRecordable s) (e : MrrIndexEntry)
    (p : PointsAt (session_header s).frames_offset s.frames 100 e) where
  tail_frames : drop 100 s.frames ≡ p.frame ∷ p.after
  tail_frames = tail_at 100 p.before (p.frame ∷ p.after) s.frames p.split p.place

  tail-IsFrame : All IsFrame (p.frame ∷ p.after)
  tail-IsFrame = All-append IsFrame p.before (p.frame ∷ p.after) (rw p.split at (v.frames))

  index-IsEntry : IsEntry e
  unfolding new_header
  index-IsEntry =
      let parts : length (frames_bytes s.frames)
          ≡ length (frames_bytes p.before) + length (frames_bytes (p.frame ∷ p.after)) =
        ap (λ fs. length (frames_bytes fs)) p.split
        ∙ ap length (frames_bytes-append p.before (p.frame ∷ p.after))
        ∙ length-append (frames_bytes p.before) (frames_bytes (p.frame ∷ p.after)) in
      record {
        timestamp_ms = omega (arith, p.stamp, tail-IsFrame.0);
        file_offset = omega (arith, p.offset, parts, v.total);
      }

  counts : length s.frames ≡ 100 + length (p.frame ∷ p.after)
  counts = ap length p.split ∙ length-append p.before (p.frame ∷ p.after) ∙ omega (arith, p.place)

rear_one :
    (s : Session) (e : MrrIndexEntry)
    → (written s).index ≡ e ∷ []
    → rear s ≡ entry_bytes e ++ footer_bytes (finish_footer (written s))
rear_one s e one =
    ap (λ es. index_bytes es ++ footer_bytes (finish_footer (written s))) one
    ∙ ap (λ bs. bs ++ footer_bytes (finish_footer (written s))) (append-nil (entry_bytes e))

-- A reader that has counted from an entry on is not at the end behind the last frame.
overrun :
    (s : Session) (target : ℕ) (fs : List MrrFrame) (r : MrrReader)
    → r.footer.frame_count ≡ 100 + length fs
    → r.current_frame ≡ 0 + passed target fs
    → ¬ Plays r (from_time target fs)
overrun s target fs r total count plays =
    absurd (omega (arith, Plays-count plays, passed-from_time target fs, total, count))

one_entry :
    (s : Session) (e : MrrIndexEntry)
    → (written s).index ≡ e ∷ []
    → (player s).footer.index_count ≡ 1
unfolding finish_footer
one_entry s e one = rw one

overruns_at :
    (s : Session) (p c target : ℕ) (e : MrrIndexEntry)
    → IsRecordable s
    → (written s).index ≡ e ∷ []
    → e.timestamp_ms ≤ target
    → from_time target (drop 100 s.frames) ≢ []
    → (r : MrrReader) × (seek_to_timestamp target (anywhere s p c) ≡ some (ok r))
      × (ahead r.reader ≡ frames_bytes (from_time target (drop 100 s.frames)) ++ rear s)
      × ¬ Plays r (from_time target (drop 100 s.frames))
unfolding seek_to_timestamp seek_start finish_footer
overruns_at s p c target e v one early later =
    let pts : PointsAt (session_header s).frames_offset s.frames 100 e =
      (rw one at ((index_of_session s v).1)).0 in
    let tail = tail_frames s v e pts in
    let m : Medium = record {
      content = (recording s).content;
      pos = (player s).footer.index_offset;
    } in
    let lies : ahead m ≡ entry_bytes e ++ footer_bytes (finish_footer (written s)) =
      index_place s v ∙ rear_one s e one in
    let total : (player s).footer.frame_count ≡ 100 + length (pts.frame ∷ pts.after) =
      (footer_counts s v).0 ∙ counts s v e pts in
    let scanned : scan_index (player s).footer.index_count target none m
        ≡ ok (some e, record m { pos = m.pos + index_entry_size }) =
      rw (one_entry s e one) (scan_one target e _ m (index-IsEntry s v e pts) lies early) in
    let (r, runs, stands, foot, _) =
      skip_frames_lem ((player s).footer.frame_count + 1) target (pts.frame ∷ pts.after) (rear s) 0
        (anywhere s e.file_offset 0) (omega (arith, total)) (tail-IsFrame s v e pts)
        (record { lies = ahead_of_entry s 100 e v pts; counter = refl }) (omega (arith, total))
        (λ none'. absurd (later (rw tail none'))) in
    (
      r,
      rw (scanned, seek_to_timestamp) runs,
      rw tail stands.lies,
      rw tail (
          overrun s target (pts.frame ∷ pts.after) r
            (ap (λ (f : MrrFooter). f.frame_count) foot ∙ total) stands.counter),
    )

list_of_one {ℓ} : {A : Type ℓ} (xs : List A) → length xs ≡ 1 → (x : A) × (xs ≡ x ∷ [])
list_of_one [] h = absurd (omega (arith, h))
list_of_one (x ∷ []) h = (x, refl)
list_of_one (x ∷ y ∷ xs) h = absurd (omega (arith, h))

-- A recording of 101 to 200 frames has one index entry, that of the frame number 100 (from 0). A
-- seek to a time that is not before that frame's, and that a frame from there on reaches, ends
-- before the first such frame; but the count of frames starts anew at the entry, so that reading
-- on does not play these frames and then end.
pub seek_overruns :
    (s : Session) (p c target : ℕ) (f : MrrFrame) (fs : List MrrFrame)
    → IsRecordable s
    → drop 100 s.frames ≡ f ∷ fs
    → length fs < 100
    → f.timestamp_ms ≤ target
    → from_time target (drop 100 s.frames) ≢ []
    → (r : MrrReader) × (seek_to_timestamp target (anywhere s p c) ≡ some (ok r))
      × (ahead r.reader ≡ frames_bytes (from_time target (drop 100 s.frames)) ++ rear s)
      × ¬ Plays r (from_time target (drop 100 s.frames))
seek_overruns s p c target f fs v tail few early later =
    let long : length s.frames ≡ 101 + length fs =
      omega (arith, length-drop 100 s.frames, ap length tail) in
    let (e, one) = list_of_one (written s).index (omega (arith, (index_of_session s v).0, long)) in
    let pts : PointsAt (session_header s).frames_offset s.frames 100 e =
      (rw one at ((index_of_session s v).1)).0 in
    let same : pts.frame ≡ f = ap (first_of f) (sym (tail_frames s v e pts) ∙ tail) in
    overruns_at s p c target e v one
      (omega (arith, pts.stamp, ap (λ (x : MrrFrame). x.timestamp_ms) same, early)) later
  where
    first_of : MrrFrame → List MrrFrame → MrrFrame
    first_of d [] = d
    first_of d (x ∷ xs) = x
