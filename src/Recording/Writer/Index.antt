-- ===== src/Recording/Writer/Index.antt =====
-- The seek index that MrrWriter keeps: its entries, the frames they are for,
-- with their times and their places in the file.
use mayara.Prelude.{
  ℕ, suc, ◌+◌, ◌-◌, ◌*◌, ◌/◌, ◌≤◌, ◌<◌, ◌≡◌, refl, sym, ap, List, [], ◌∷◌, ◌++◌, inl, inr, arith,
  length, All, length-append, leb, leb→le, Bool-cases,
}
use mathlib.Core.List.{append-nil, append_assoc}
use mayara.Recording.Medium.{Medium, AtEnd, append-AtEnd}
use mayara.Recording.Layout.{MrrIndexEntry}
use mayara.Recording.Frame.{MrrFrame}
use mayara.Recording.Frame.Roundtrip.{IsFrame, frame_bytes}
use mayara.Recording.Writer.{MrrWriter, index_frame, write_frame, write_frames}
use mayara.Recording.Writer.Content.{frames_bytes, writer-write_frame}

-- The entry is that of the frame behind the first `n`.
pub record PointsAt (base : ℕ) (fs : List MrrFrame) (n : ℕ) (e : MrrIndexEntry) : Type 0 where
  pub before : List MrrFrame
  pub frame : MrrFrame
  pub after : List MrrFrame
  pub split : fs ≡ before ++ (frame ∷ after)
  pub place : length before ≡ n
  pub stamp : e.timestamp_ms ≡ frame.timestamp_ms
  pub offset : e.file_offset ≡ base + length (frames_bytes before)

-- The entries are those of the frames 100 * (k + 1), 100 * (k + 2), ...
abbrev pub Entries : ℕ → List MrrFrame → ℕ → List MrrIndexEntry → Type 0
Entries base fs k [] = Unit {0}
Entries base fs k (e ∷ es) = PointsAt base fs (100 * (k + 1)) e × Entries base fs (k + 1) es

-- What holds of a writer that has written these frames from the offset `base` on.
pub record Indexed (base : ℕ) (w : MrrWriter) (fs : List MrrFrame) : Type 0 where
  pub at_end : AtEnd w.writer
  pub place : w.writer.pos ≡ base + length (frames_bytes fs)
  pub interval : w.index_interval ≡ 100
  pub counted : length fs ≡ 100 * length w.index + w.frames_since_index
  pub since_le : w.frames_since_index ≤ 100
  pub since_pos : 0 < length fs → 0 < w.frames_since_index
  pub entries : Entries base fs 0 w.index

pub frames_bytes-append :
    (fs gs : List MrrFrame) → frames_bytes (fs ++ gs) ≡ frames_bytes fs ++ frames_bytes gs
frames_bytes-append [] gs = refl
frames_bytes-append (f ∷ fs) gs =
    rw (frames_bytes-append fs gs)
      (sym (append_assoc (frame_bytes f) (frames_bytes fs) (frames_bytes gs)))

PointsAt-append :
    (base : ℕ) (fs gs : List MrrFrame) (n : ℕ) (e : MrrIndexEntry)
    → PointsAt base fs n e
    → PointsAt base (fs ++ gs) n e
PointsAt-append base fs gs n e p = record {
  before = p.before;
  frame = p.frame;
  after = p.after ++ gs;
  split = rw (p.split) (append_assoc p.before (p.frame ∷ p.after) gs);
  place = p.place;
  stamp = p.stamp;
  offset = p.offset;
}

Entries-append :
    (base : ℕ) (fs gs : List MrrFrame) (k : ℕ) (es : List MrrIndexEntry)
    → Entries base fs k es
    → Entries base (fs ++ gs) k es
Entries-append base fs gs k [] h = tt
Entries-append base fs gs k (e ∷ es) h =
    (PointsAt-append base fs gs (100 * (k + 1)) e h.0, Entries-append base fs gs (k + 1) es h.1)

Entries-snoc :
    (base : ℕ) (fs : List MrrFrame) (k : ℕ) (es : List MrrIndexEntry) (e : MrrIndexEntry)
    → Entries base fs k es
    → PointsAt base fs (100 * (k + length es + 1)) e
    → Entries base fs k (es ++ (e ∷ []))
Entries-snoc base fs k [] e h p = let here : k + 0 ≡ k = omega arith in ((rw here at p), tt)
Entries-snoc base fs k (d ∷ es) e h p =
    let there : k + suc (length es) ≡ k + 1 + length es = omega arith in
    (h.0, Entries-snoc base fs (k + 1) es e h.1 (rw there at p))

module _ (base : ℕ) (w : MrrWriter) (fs : List MrrFrame) (f : MrrFrame)
    (i : Indexed base w fs) where
  -- the index after the frame's entry was added, if one was due
  index_frame-Entries : Entries base (fs ++ (f ∷ [])) 0 (index_frame w f).index
  unfolding index_frame
  index_frame-Entries = elim (Bool-cases (leb w.index_interval w.frames_since_index)) [
    | inl due ↦ rw due (
        Entries-snoc base (fs ++ (f ∷ [])) 0 w.index _
          (Entries-append base fs (f ∷ []) 0 w.index i.entries)
          (record {
            before = fs;
            frame = f;
            after = [];
            split = refl;
            place = omega (arith, i.counted, i.since_le, i.interval, leb→le _ _ due);
            stamp = refl;
            offset = i.place;
          }))
    | inr early ↦ rw early (Entries-append base fs (f ∷ []) 0 w.index i.entries)
  ]

  index_frame_counts :
      ((index_frame w f).index_interval ≡ 100)
      × (100 * length (index_frame w f).index + (index_frame w f).frames_since_index
          ≡ 100 * length w.index + w.frames_since_index)
      × ((index_frame w f).frames_since_index < 100)
  unfolding index_frame
  index_frame_counts = elim (Bool-cases (leb w.index_interval w.frames_since_index)) [
    | inl due ↦ rw due (
      i.interval,
      omega (
        arith,
        length-append w.index
            (record { timestamp_ms = f.timestamp_ms; file_offset = w.writer.pos } ∷ []),
        i.since_le,
        i.interval,
        leb→le _ _ due,
      ),
      omega arith,
    )
    | inr early ↦ rw early (i.interval, refl, ground (arith, i.interval))
  ]

  written_place :
      IsFrame f → (write_frame w f).writer.pos ≡ base + length (frames_bytes (fs ++ (f ∷ [])))
  written_place v = omega (
    arith,
    ap (λ (m : Medium). m.pos) (writer-write_frame w f i.at_end v),
    i.place,
    ap length (frames_bytes-append fs (f ∷ [])),
    length-append (frames_bytes fs) (frame_bytes f ++ []),
    ap length (append-nil (frame_bytes f)),
  )

  write_frame-Indexed : IsFrame f → Indexed base (write_frame w f) (fs ++ (f ∷ []))
  unfolding write_frame
  write_frame-Indexed v = record {
    at_end =
        rw (writer-write_frame w f i.at_end v) (append-AtEnd w.writer (frame_bytes f) i.at_end);
    place = written_place v;
    interval = index_frame_counts.0;
    counted =
        omega
          (arith, length-append fs (f ∷ []), i.counted, index_frame_counts.1, index_frame_counts.2);
    since_le = omega (arith, index_frame_counts.2);
    since_pos = λ _. omega (arith, index_frame_counts.2);
    entries = index_frame-Entries;
  }

pub write_frames-Indexed :
    (base : ℕ) (w : MrrWriter) (fs gs : List MrrFrame)
    → Indexed base w fs
    → All IsFrame gs
    → Indexed base (write_frames w gs) (fs ++ gs)
unfolding write_frames
write_frames-Indexed base w fs [] i v = rw (append-nil fs) i
write_frames-Indexed base w fs (g ∷ gs) i v = rw (append_assoc fs (g ∷ []) gs) at (
    write_frames-Indexed base (write_frame w g) (fs ++ (g ∷ [])) gs
      (write_frame-Indexed base w fs g i v.0) v.1)

-- One frame in a hundred is indexed, the first of the file never.
pub length-index :
    {base : ℕ} {w : MrrWriter} {fs : List MrrFrame}
    → Indexed base w fs
    → length w.index ≡ (length fs - 1) / 100
length-index {fs = []} i = omega (arith, i.counted)
length-index {fs = f ∷ fs} i = omega (arith, i.counted, i.since_le, i.since_pos (omega arith))
