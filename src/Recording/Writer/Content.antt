-- ===== src/Recording/Writer/Content.antt =====
-- What MrrWriter leaves in the file: header, capabilities, state, frames, index, footer.
use mayara.Prelude.{
  ℕ, ◌+◌, ◌^◌, ◌%◌, ◌<◌, ◌≡◌, refl, ap, ◌∙◌, List, [], ◌∷◌, ◌++◌, arith, length, All,
}
use mathlib.Core.List.{append_assoc}
use mayara.Recording.Medium.{
  Medium, write_all, seek_start, append, AtEnd, write_all-AtEnd, append-AtEnd, append-append,
  append-none,
}
use mayara.Recording.Layout.{
  MrrHeader, MrrIndexEntry, header_bytes, header_write, footer_bytes, footer_write,
}
use mayara.Recording.Layout.Roundtrip.{entry_bytes, entry_write-AtEnd}
use mayara.Recording.Frame.{MrrFrame}
use mayara.Recording.Frame.Roundtrip.{IsFrame, frame_bytes, write-AtEnd}
use mayara.Recording.Writer.{
  MrrWriter, new_header, new, index_frame, write_frame, write_index, finish_footer, finish,
  write_frames,
}

abbrev pub frames_bytes : List MrrFrame → List ℕ
frames_bytes [] = []
frames_bytes (f ∷ fs) = frame_bytes f ++ frames_bytes fs

abbrev pub index_bytes : List MrrIndexEntry → List ℕ
index_bytes [] = []
index_bytes (e ∷ es) = entry_bytes e ++ index_bytes es

-- An index entry is kept in memory: neither the file nor the other counters change.
pub index_frame_keeps :
    (w : MrrWriter) (f : MrrFrame)
    → ((index_frame w f).writer ≡ w.writer)
      × ((index_frame w f).header ≡ w.header)
      × ((index_frame w f).frame_count ≡ w.frame_count)
unfolding index_frame
index_frame_keeps w f = ground arith

pub writer-write_frame :
    (w : MrrWriter) (f : MrrFrame)
    → AtEnd w.writer
    → IsFrame f
    → (write_frame w f).writer ≡ append w.writer (frame_bytes f)
unfolding write_frame
writer-write_frame w f h v = rw ((index_frame_keeps w f).0) (write-AtEnd f w.writer h v)

pub write_frame_keeps :
    (w : MrrWriter) (f : MrrFrame)
    → ((write_frame w f).header ≡ w.header)
      × ((write_frame w f).frame_count ≡ (w.frame_count + 1) % 2 ^ 32)
unfolding write_frame
write_frame_keeps w f = ground (arith, index_frame_keeps w f)

pub header-write_frames :
    (w : MrrWriter) (fs : List MrrFrame) → (write_frames w fs).header ≡ w.header
unfolding write_frames
header-write_frames w [] = refl
header-write_frames w (f ∷ fs) =
    header-write_frames (write_frame w f) fs ∙ (write_frame_keeps w f).0

pub frame_count-write_frames :
    (w : MrrWriter) (fs : List MrrFrame)
    → w.frame_count + length fs < 2 ^ 32
    → (write_frames w fs).frame_count ≡ w.frame_count + length fs
unfolding write_frames
frame_count-write_frames w [] h = omega arith
frame_count-write_frames w (f ∷ fs) h =
    let step : (write_frame w f).frame_count ≡ w.frame_count + 1 =
      omega (arith, (write_frame_keeps w f).1) in
    omega (arith, step, frame_count-write_frames (write_frame w f) fs (omega (arith, step)))

pub writer-write_frames :
    (w : MrrWriter) (fs : List MrrFrame)
    → AtEnd w.writer
    → All IsFrame fs
    → (write_frames w fs).writer ≡ append w.writer (frames_bytes fs)
unfolding write_frames
writer-write_frames w [] h v = append-none w.writer
writer-write_frames w (f ∷ fs) h v =
    let one = writer-write_frame w f h v.0 in
    let still : AtEnd (write_frame w f).writer = rw one (append-AtEnd w.writer (frame_bytes f) h) in
    writer-write_frames (write_frame w f) fs still v.1
    ∙ (rw one (append-append w.writer (frame_bytes f) (frames_bytes fs)))

write_index-AtEnd :
    (es : List MrrIndexEntry) (m : Medium) → AtEnd m → write_index es m ≡ append m (index_bytes es)
unfolding write_index
write_index-AtEnd [] m h = append-none m
write_index-AtEnd (e ∷ es) m h = rw (entry_write-AtEnd e m h) (
    write_index-AtEnd es (append m (entry_bytes e)) (append-AtEnd m (entry_bytes e) h)
    ∙ append-append m (entry_bytes e) (index_bytes es))

-- Rewriting the header in place leaves the rest.
rewrite_header :
    (h : MrrHeader) (rest : List ℕ) (p : ℕ)
    → (header_write h (seek_start 0 (record { content = header_bytes h ++ rest; pos = p }))).content
      ≡ header_bytes h ++ rest
unfolding header_write seek_start write_all header_bytes
rewrite_header h rest p = refl

-- What `finish` leaves, where the header was written first.
pub content-finish :
    (w : MrrWriter) (body : List ℕ)
    → AtEnd w.writer
    → w.writer.content ≡ header_bytes w.header ++ body
    → (finish w).content
      ≡ header_bytes w.header ++ (body ++ (index_bytes w.index ++ footer_bytes (finish_footer w)))
unfolding finish footer_write
content-finish w body h c =
    let rest = index_bytes w.index ++ footer_bytes (finish_footer w) in
    let indexed = append w.writer (index_bytes w.index) in
    let whole : (w.writer.content ++ index_bytes w.index) ++ footer_bytes (finish_footer w)
        ≡ header_bytes w.header ++ (body ++ rest) =
      rw c (simp append_assoc) in
    rw
      (
        write_index-AtEnd w.index w.writer h,
        write_all-AtEnd (footer_bytes (finish_footer w)) indexed
            (append-AtEnd w.writer (index_bytes w.index) h),
      )
      (ap
          (λ t.
            (header_write w.header (
              seek_start 0 (record {
                content = t;
                pos = indexed.pos + length (footer_bytes (finish_footer w));
              }))).content)
          whole
        ∙ rewrite_header w.header (body ++ rest) _)

-- `new` on an empty file
pub writer-new :
    (now brand spokes len values : ℕ) (capabilities initial_state : List ℕ)
    → (new now
        (record { content = []; pos = 0 })
        brand
        spokes
        len
        values
        capabilities
        initial_state).writer
      ≡ append
          (record { content = []; pos = 0 })
          (header_bytes (new_header now brand spokes len values capabilities initial_state)
            ++ (capabilities ++ initial_state))
unfolding new header_write
writer-new now brand spokes len values capabilities initial_state =
    let h = new_header now brand spokes len values capabilities initial_state in
    let m0 : Medium = record { content = []; pos = 0 } in
    let m1 = append m0 (header_bytes h) in
    let m2 = append m1 capabilities in
    let h1 = append-AtEnd m0 (header_bytes h) (omega arith) in
    let h2 = append-AtEnd m1 capabilities h1 in
    rw
      (
        write_all-AtEnd (header_bytes h) m0 (omega arith),
        write_all-AtEnd capabilities m1 h1,
        write_all-AtEnd initial_state m2 h2,
      )
      (append-append m1 capabilities initial_state
        ∙ append-append m0 (header_bytes h) (capabilities ++ initial_state))
