-- ===== src/Recording/Frame/Roundtrip.antt =====
-- Writing a frame and reading it back, and its `size`.
use mayara.Prelude.{
  ℕ, ◌+◌, ◌*◌, ◌^◌, ◌<◌, ◌≡◌, refl, List, [], ◌∷◌, ◌++◌, true, false, Option, none, some, arith, ap,
  sym, ◌∙◌, if◌then◌else◌, length, to_le_bytes, from_le_bytes, from_le_bytes-to_le_bytes,
  length-to_le_bytes, length-append, drop, drop-append,
}
use mathlib.Core.List.{append-nil, append_assoc}
use mayara.Recording.Medium.{
  seek_start, ok, Medium, write_all, read_exact, ahead, read_exact-ahead, ahead_advance, append,
  AtEnd, write_all-AtEnd, append-AtEnd, append-append, append-none,
}
use mayara.Recording.Frame.{
  MrrFrame, has_state, len_u32, write_state, write, read_state, read, size,
}

-- The flag tells whether there is a state delta.
abbrev pub Tagged : ℕ → Option (List ℕ) → Type 0
Tagged flags none = has_state flags ≡ false
Tagged flags (some state) = (has_state flags ≡ true) × (length state < 2 ^ 32)

-- Each field fits its machine type, and the lengths fit the 32 bits that they are stored in.
pub record IsFrame (f : MrrFrame) : Type 0 where
  pub timestamp_ms : f.timestamp_ms < 256 ^ 8
  pub flags : f.flags < 256
  pub frame_data : length f.frame_data < 2 ^ 32
  pub state_delta : Tagged f.flags f.state_delta

-- A length and as many bytes.
abbrev pub block : List ℕ → List ℕ
block bs = to_le_bytes 4 (length bs) ++ bs

abbrev pub state_bytes : Option (List ℕ) → List ℕ
state_bytes none = []
state_bytes (some state) = block state

-- The layout of a frame.
abbrev pub frame_bytes : MrrFrame → List ℕ
frame_bytes f =
    to_le_bytes 8 f.timestamp_ms ++ (f.flags ∷ (block f.frame_data ++ state_bytes f.state_delta))

len_u32_lem : (bs : List ℕ) → length bs < 2 ^ 32 → len_u32 bs ≡ length bs
len_u32_lem bs h = omega arith

write_block :
    (bs : List ℕ) (m : Medium)
    → AtEnd m
    → length bs < 2 ^ 32
    → write_all bs (write_all (to_le_bytes 4 (len_u32 bs)) m) ≡ append m (block bs)
write_block bs m h fits =
    let len = to_le_bytes 4 (length bs) in
    rw
      (
        len_u32_lem bs fits,
        write_all-AtEnd len m h,
        write_all-AtEnd bs (append m len) (append-AtEnd m len h),
      )
      (append-append m len bs)

write_tail :
    (flags : ℕ) (delta : Option (List ℕ)) (m : Medium)
    → AtEnd m
    → Tagged flags delta
    → (if has_state flags then write_state delta m else m) ≡ append m (state_bytes delta)
write_tail flags none m h v = rw v (append-none m)
write_tail flags (some state) m h v = rw v.0 (write_block state m h v.1)

-- Writing at the end of the file adds the frame's bytes.
pub write-AtEnd :
    (f : MrrFrame) (m : Medium) → AtEnd m → IsFrame f → write f m ≡ append m (frame_bytes f)
unfolding write
write-AtEnd f m h v =
    let stamp = to_le_bytes 8 f.timestamp_ms in
    let flags = f.flags ∷ [] in
    let m1 = append m stamp in
    let m2 = append m1 flags in
    let m3 = append m2 (block f.frame_data) in
    let h1 = append-AtEnd m stamp h in
    let h2 = append-AtEnd m1 flags h1 in
    let h3 = append-AtEnd m2 (block f.frame_data) h2 in
    let tail = block f.frame_data ++ state_bytes f.state_delta in
    rw
      (
        write_all-AtEnd stamp m h,
        write_all-AtEnd flags m1 h1,
        write_block f.frame_data m2 h2 v.frame_data,
      )
      (write_tail f.flags f.state_delta m3 h3 v.state_delta
        ∙ append-append m2 (block f.frame_data) (state_bytes f.state_delta)
        ∙ append-append m1 flags tail
        ∙ append-append m stamp (flags ++ tail))

module _ (w v : ℕ) (rest : List ℕ) (m : Medium) (a : ahead m ≡ to_le_bytes w v ++ rest) where
  read_word : read_exact w m ≡ ok (to_le_bytes w v, record m { pos = m.pos + w })
  read_word = rw (length-to_le_bytes w v) at (read_exact-ahead (to_le_bytes w v) rest m a)

  after_word : ahead (record m { pos = m.pos + w }) ≡ rest
  after_word = rw (length-to_le_bytes w v) at (ahead_advance (to_le_bytes w v) rest m a)

module _ (bs rest : List ℕ) (m : Medium) (fits : length bs < 2 ^ 32)
    (a : ahead m ≡ block bs ++ rest) where
  block_split : ahead m ≡ to_le_bytes 4 (length bs) ++ (bs ++ rest)
  block_split = a ∙ append_assoc (to_le_bytes 4 (length bs)) bs rest

  read_length : read_exact 4 m ≡ ok (to_le_bytes 4 (length bs), record m { pos = m.pos + 4 })
  read_length = read_word 4 (length bs) (bs ++ rest) m block_split

  read_payload :
      read_exact (from_le_bytes (to_le_bytes 4 (length bs))) (record m { pos = m.pos + 4 })
      ≡ ok (bs, record m { pos = m.pos + 4 + length bs })
  read_payload = rw (from_le_bytes-to_le_bytes 4 (length bs) fits) (
      read_exact-ahead bs rest (record m { pos = m.pos + 4 })
        (after_word 4 (length bs) (bs ++ rest) m block_split))

  after_block : ahead (record m { pos = m.pos + 4 + length bs }) ≡ rest
  after_block =
      ahead_advance bs rest (record m { pos = m.pos + 4 })
        (after_word 4 (length bs) (bs ++ rest) m block_split)

abbrev state_size : Option (List ℕ) → ℕ
state_size none = 0
state_size (some state) = 4 + length state

read_tail :
    (flags : ℕ) (delta : Option (List ℕ)) (rest : List ℕ) (m : Medium)
    → Tagged flags delta
    → ahead m ≡ state_bytes delta ++ rest
    → (if has_state flags then read_state m else ok (none, m))
      ≡ ok (delta, record m { pos = m.pos + state_size delta })
unfolding read_state
read_tail flags none rest m v a =
    rw v (let p : m.pos ≡ m.pos + 0 = omega arith in λ i. ok (none, record m { pos = p i }))
read_tail flags (some state) rest m v a =
    let p : m.pos + 4 + length state ≡ m.pos + (4 + length state) = omega arith in
    rw (v.0, read_length state rest m v.1 a, read_payload state rest m v.1 a, p)

size_lem : (f : MrrFrame) → size f ≡ 13 + length f.frame_data + state_size f.state_delta
unfolding size
size_lem f = ground arith

frame_split :
    (f : MrrFrame) (rest : List ℕ)
    → frame_bytes f ++ rest
      ≡ to_le_bytes 8 f.timestamp_ms
        ++ (f.flags ∷ (block f.frame_data ++ (state_bytes f.state_delta ++ rest)))
frame_split f rest = simp append_assoc

-- Where a frame lies ahead, `read` returns it, and moves on by its `size`.
pub read-ahead :
    (f : MrrFrame) (rest : List ℕ) (m : Medium)
    → IsFrame f
    → ahead m ≡ frame_bytes f ++ rest
    → read m ≡ ok (f, record m { pos = m.pos + size f })
unfolding read
read-ahead f rest m v a =
    let stamp = to_le_bytes 8 f.timestamp_ms in
    let tail = state_bytes f.state_delta ++ rest in
    let a0 : ahead m ≡ stamp ++ (f.flags ∷ (block f.frame_data ++ tail)) = a ∙ frame_split f rest in
    let a1 = after_word 8 f.timestamp_ms (f.flags ∷ (block f.frame_data ++ tail)) m a0 in
    let m1 = record m { pos = m.pos + 8 } in
    let a2 = ahead_advance (f.flags ∷ []) (block f.frame_data ++ tail) m1 a1 in
    let m2 = record m { pos = m.pos + 8 + 1 } in
    let m3 = record m { pos = m.pos + 8 + 1 + 4 + length f.frame_data } in
    let a3 = after_block f.frame_data tail m2 v.frame_data a2 in
    let flags_back : f.flags + 256 * 0 ≡ f.flags = omega arith in
    rw
      (
        read_word 8 f.timestamp_ms (f.flags ∷ (block f.frame_data ++ tail)) m a0,
        read_exact-ahead (f.flags ∷ []) (block f.frame_data ++ tail) m1 a1,
        read_length f.frame_data tail m2 v.frame_data a2,
        read_payload f.frame_data tail m2 v.frame_data a2,
        flags_back,
        read_tail f.flags f.state_delta rest m3 v.state_delta a3,
        from_le_bytes-to_le_bytes 8 f.timestamp_ms v.timestamp_ms,
        size_lem f,
      )
      (let p : m.pos + 8 + 1 + 4 + length f.frame_data + state_size f.state_delta
            ≡ m.pos + (13 + length f.frame_data + state_size f.state_delta) =
          omega arith in
        λ i. ok (f, record m { pos = p i }))

length-block : (bs : List ℕ) → length (block bs) ≡ 4 + length bs
length-block bs =
    omega (arith, length-append (to_le_bytes 4 (length bs)) bs, length-to_le_bytes 4 (length bs))

length-state_bytes : (delta : Option (List ℕ)) → length (state_bytes delta) ≡ state_size delta
length-state_bytes none = refl
length-state_bytes (some state) = length-block state

-- The layout is as long as `size` says.
pub length-frame_bytes : (f : MrrFrame) → length (frame_bytes f) ≡ size f
length-frame_bytes f = omega (
  arith,
  size_lem f,
  length-state_bytes f.state_delta,
  length-append (to_le_bytes 8 f.timestamp_ms)
      (f.flags ∷ (block f.frame_data ++ state_bytes f.state_delta)),
  length-append (block f.frame_data) (state_bytes f.state_delta),
  length-block f.frame_data,
  length-to_le_bytes 8 f.timestamp_ms,
)

-- A frame that is written at the end of the file takes `size` bytes, and reading from where it
-- was written returns it and ends where the writing ended.
pub read-write :
    (f : MrrFrame) (m : Medium)
    → AtEnd m
    → IsFrame f
    → ((write f m).pos ≡ m.pos + size f) × (read (seek_start m.pos (write f m)) ≡ ok (f, write f m))
unfolding seek_start
read-write f m h v =
    let long : m.pos + length (frame_bytes f) ≡ m.pos + size f =
      ap (λ n. m.pos + n) (length-frame_bytes f) in
    let written = write-AtEnd f m h v in
    let lies : drop m.pos (m.content ++ frame_bytes f) ≡ frame_bytes f ++ [] =
      rw h (drop-append m.content (frame_bytes f) ∙ sym (append-nil (frame_bytes f))) in
    rw (written, long)
      (refl, read-ahead f [] (record { content = m.content ++ frame_bytes f; pos = m.pos }) v lies)
