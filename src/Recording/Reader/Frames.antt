-- ===== src/Recording/Reader/Frames.antt =====
-- Opening a well-formed recording, and reading frames where they lie.
use mayara.Prelude.{
  ℕ, ◌+◌, ◌-◌, ◌<◌, ◌≡◌, refl, sym, ap, ◌∙◌, List, [], ◌∷◌, ◌++◌, none, some, arith, length, drop,
  All, length-append, drop-append, true, false, leb, ltb,
}
use mathlib.Core.List.{append-nil, append_assoc}
use mayara.Recording.Medium.{
  ok, Medium, read_exact, seek_start, seek_end_back, ahead, ahead_advance, read_exact-ahead,
}
use mayara.Recording.Layout.{
  MrrHeader, MrrFooter, header_bytes, footer_bytes, footer_read, header_size, footer_size,
}
use mayara.Recording.Layout.Roundtrip.{
  IsHeader, IsFooter, header_read-ahead, footer_read-ahead, length-header_bytes,
  length-footer_bytes,
}
use mayara.Recording.Frame.{MrrFrame, size}
use mayara.Recording.Frame.Roundtrip.{IsFrame, frame_bytes, read-ahead, length-frame_bytes}
use mayara.Recording.Writer.Content.{frames_bytes}
use mayara.Recording.Reader.{MrrReader, open_reader, read_frame}

-- A header that tells where the capabilities and the state are.
pub record Describes (h : MrrHeader) (capabilities initial_state : List ℕ) : Type 0 where
  pub capabilities_at : h.capabilities_offset ≡ header_size
  pub capabilities_len : h.capabilities_len ≡ length capabilities
  pub state_at : h.initial_state_offset ≡ header_size + length capabilities
  pub state_len : h.initial_state_len ≡ length initial_state

pub drop_to : (n : ℕ) (pre rest : List ℕ) → n ≡ length pre → drop n (pre ++ rest) ≡ rest
drop_to n pre rest e = rw e (drop-append pre rest)

read_at :
    (n p : ℕ) (content bs rest : List ℕ)
    → n ≡ length bs
    → drop p content ≡ bs ++ rest
    → read_exact n (record { content = content; pos = p })
      ≡ ok (bs, record { content = content; pos = p + n })
read_at n p content bs rest e a =
    rw e (read_exact-ahead bs rest (record { content = content; pos = p }) a)

module _ (h : MrrHeader) (foot : MrrFooter) (capabilities initial_state body : List ℕ)
    (vh : IsHeader h) (vf : IsFooter foot) (at : Describes h capabilities initial_state) where
  abbrev pub file : List ℕ
  file = header_bytes h ++ (capabilities ++ (initial_state ++ (body ++ footer_bytes foot)))

  abbrev pub standing : ℕ → Medium
  standing p = record { content = file; pos = p }

  read_capabilities :
      read_exact h.capabilities_len (standing h.capabilities_offset)
      ≡ ok (capabilities, standing (h.capabilities_offset + h.capabilities_len))
  read_capabilities =
      read_at _ _ _ capabilities (initial_state ++ (body ++ footer_bytes foot)) at.capabilities_len
        (drop_to h.capabilities_offset (header_bytes h) _
          (at.capabilities_at ∙ sym (length-header_bytes h)))

  read_initial_state :
      read_exact h.initial_state_len (standing h.initial_state_offset)
      ≡ ok (initial_state, standing (h.initial_state_offset + h.initial_state_len))
  read_initial_state = read_at _ _ _ initial_state (body ++ footer_bytes foot) at.state_len (
      rw
        (← append_assoc (header_bytes h) capabilities
          (initial_state ++ (body ++ footer_bytes foot)))
        (drop_to h.initial_state_offset (header_bytes h ++ capabilities) _ (
          omega (
            arith,
            at.state_at,
            length-append (header_bytes h) capabilities,
            length-header_bytes h,
          ))))

  before_footer : List ℕ
  before_footer = header_bytes h ++ (capabilities ++ (initial_state ++ body))

  file-split : file ≡ before_footer ++ footer_bytes foot
  unfolding before_footer
  file-split = simp append_assoc

  length-file : length file ≡ length before_footer + footer_size
  length-file =
      ap length file-split
      ∙ (rw (length-append before_footer (footer_bytes foot), length-footer_bytes foot))

  find_footer :
      (p : ℕ) → seek_end_back footer_size (standing p) ≡ ok (standing (length before_footer))
  unfolding seek_end_back
  find_footer p =
      let long : ltb (length file) footer_size ≡ false = ground (arith, length-file) in
      let back : length file - footer_size ≡ length before_footer = omega (arith, length-file) in
      rw (long, back)

  read_footer :
      footer_read (standing (length before_footer))
      ≡ ok (foot, standing (length before_footer + footer_size))
  read_footer = footer_read-ahead foot [] (standing (length before_footer)) vf (
      rw file-split
        (drop-append before_footer (footer_bytes foot) ∙ sym (append-nil (footer_bytes foot))))

  -- Opening finds the header, the two documents and the footer, and stands at the first frame.
  pub open_reader_lem :
      (p : ℕ)
      → open_reader (seek_start 0 (standing p))
        ≡ ok (record {
          reader = standing h.frames_offset;
          header = h;
          footer = foot;
          capabilities = capabilities;
          initial_state = initial_state;
          current_frame = 0;
        })
  unfolding open_reader seek_start
  open_reader_lem p = rw (
    header_read-ahead h (capabilities ++ (initial_state ++ (body ++ footer_bytes foot)))
        (standing 0) vh refl,
    read_capabilities,
    read_initial_state,
    find_footer (h.initial_state_offset + h.initial_state_len),
    read_footer,
  )

-- Reading the frame that lies ahead.
pub read_frame-ahead :
    (f : MrrFrame) (rest : List ℕ) (r : MrrReader)
    → IsFrame f
    → ahead r.reader ≡ frame_bytes f ++ rest
    → r.current_frame < r.footer.frame_count
    → read_frame r
      ≡ ok (
        some f,
        record r {
          reader = record r.reader { pos = r.reader.pos + size f };
          current_frame = r.current_frame + 1;
        },
      )
unfolding read_frame
read_frame-ahead f rest r v a more =
    let unfinished : leb r.footer.frame_count r.current_frame ≡ false = ground arith in
    rw (unfinished, read-ahead f rest r.reader v a)

-- Calling `read_frame` until it returns `None` gives these frames.
pub data Plays : MrrReader → List MrrFrame → Type 0 where
  finished : {r : MrrReader} → read_frame r ≡ ok (none, r) → Plays r []
  next :
      {r r' : MrrReader} {f : MrrFrame} {fs : List MrrFrame}
      → read_frame r ≡ ok (some f, r')
      → Plays r' fs
      → Plays r (f ∷ fs)

-- The frames that lie ahead are played, if they are as many as the footer counts.
pub Plays_ahead :
    (fs : List MrrFrame) (rest : List ℕ) (r : MrrReader)
    → All IsFrame fs
    → ahead r.reader ≡ frames_bytes fs ++ rest
    → r.current_frame + length fs ≡ r.footer.frame_count
    → Plays r fs
unfolding read_frame
Plays_ahead [] rest r v a e =
    let done : leb r.footer.frame_count r.current_frame ≡ true = ground arith in
    Plays.finished (rw done)
Plays_ahead (f ∷ fs) rest r v a e =
    let a0 : ahead r.reader ≡ frame_bytes f ++ (frames_bytes fs ++ rest) =
      a ∙ append_assoc (frame_bytes f) (frames_bytes fs) rest in
    Plays.next (read_frame-ahead f (frames_bytes fs ++ rest) r v.0 a0 (omega arith)) (
      Plays_ahead fs rest _ v.1
        (rw (← length-frame_bytes f) (ahead_advance (frame_bytes f) _ r.reader a0)) (omega arith))
