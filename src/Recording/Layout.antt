-- ===== src/Recording/Layout.antt =====
-- The fixed-size records of an MRR file (MrrHeader, MrrFooter, MrrIndexEntry): their fields, their
-- bytes and their readers.
pub mod Roundtrip
use mayara.Prelude.{
  ℕ, ◌+◌, ◌-◌, ◌^◌, ◌≤◌, ◌<◌, ◌≡◌, refl, List, [], ◌∷◌, ◌++◌, Bool, true, false, arith, ltb,
  if◌then◌else◌, length, take, drop, replicate, to_le_bytes, from_le_bytes, bytes_eq, slice, not,
}
use mayara.Recording.Medium.{IoResult, ok, err, ◌>>=◌, invalid_data, Medium, write_all, read_exact}

-- b"MRR1"
abbrev pub mrr_magic : List ℕ
mrr_magic = b'M' ∷ b'R' ∷ b'R' ∷ b'1' ∷ []

-- b"MRRF"
abbrev pub mrr_footer_magic : List ℕ
mrr_footer_magic = b'M' ∷ b'R' ∷ b'R' ∷ b'F' ∷ []

abbrev pub mrr_version : ℕ
mrr_version = 1

abbrev pub header_size : ℕ
header_size = 256

abbrev pub footer_size : ℕ
footer_size = 32

abbrev pub index_entry_size : ℕ
index_entry_size = 16

pub record MrrHeader : Type 0 where
  pub version : ℕ  -- u16
  pub flags : ℕ  -- u16
  pub radar_brand : ℕ  -- u32
  pub spokes_per_rev : ℕ  -- u32
  pub max_spoke_len : ℕ  -- u32
  pub pixel_values : ℕ  -- u32
  pub start_time_ms : ℕ  -- u64
  pub capabilities_offset : ℕ  -- u64
  pub capabilities_len : ℕ  -- u32
  pub initial_state_offset : ℕ  -- u64
  pub initial_state_len : ℕ  -- u32
  pub frames_offset : ℕ  -- u64

pub record MrrFooter : Type 0 where
  pub index_offset : ℕ  -- u64
  pub index_count : ℕ  -- u32
  pub frame_count : ℕ  -- u32
  pub duration_ms : ℕ  -- u64

pub record MrrIndexEntry : Type 0 where
  pub timestamp_ms : ℕ  -- u64
  pub file_offset : ℕ  -- u64

-- `buf[a..b].copy_from_slice(bs)`, at a and bs
abbrev pub copy_at : ℕ → List ℕ → List ℕ → List ℕ
copy_at a bs buf = take a buf ++ (bs ++ drop (a + length bs) buf)

-- The buffer that `MrrHeader::write` fills.
unfoldable pub header_bytes : MrrHeader → List ℕ
unfolding to_le_bytes
header_bytes h = do
  let buf = replicate header_size 0
  let buf = copy_at 0 mrr_magic buf
  let buf = copy_at 4 (to_le_bytes 2 h.version) buf
  let buf = copy_at 6 (to_le_bytes 2 h.flags) buf
  let buf = copy_at 8 (to_le_bytes 4 h.radar_brand) buf
  let buf = copy_at 12 (to_le_bytes 4 h.spokes_per_rev) buf
  let buf = copy_at 16 (to_le_bytes 4 h.max_spoke_len) buf
  let buf = copy_at 20 (to_le_bytes 4 h.pixel_values) buf
  let buf = copy_at 24 (to_le_bytes 8 h.start_time_ms) buf
  let buf = copy_at 32 (to_le_bytes 8 h.capabilities_offset) buf
  let buf = copy_at 40 (to_le_bytes 4 h.capabilities_len) buf
  let buf = copy_at 44 (to_le_bytes 8 h.initial_state_offset) buf
  let buf = copy_at 52 (to_le_bytes 4 h.initial_state_len) buf
  copy_at 56 (to_le_bytes 8 h.frames_offset) buf

-- `MrrHeader::write`
unfoldable pub header_write : MrrHeader → Medium → Medium
header_write h m = write_all (header_bytes h) m

-- What `MrrHeader::read` makes of its buffer.
unfoldable pub header_of_bytes : List ℕ → IoResult MrrHeader
header_of_bytes buf =
    if not (bytes_eq (slice 0 4 buf) mrr_magic)
    then err invalid_data
    else (let version = from_le_bytes (slice 4 6 buf) in
        if ltb mrr_version version
        then err invalid_data
        else ok (record {
          version = version;
          flags = from_le_bytes (slice 6 8 buf);
          radar_brand = from_le_bytes (slice 8 12 buf);
          spokes_per_rev = from_le_bytes (slice 12 16 buf);
          max_spoke_len = from_le_bytes (slice 16 20 buf);
          pixel_values = from_le_bytes (slice 20 24 buf);
          start_time_ms = from_le_bytes (slice 24 32 buf);
          capabilities_offset = from_le_bytes (slice 32 40 buf);
          capabilities_len = from_le_bytes (slice 40 44 buf);
          initial_state_offset = from_le_bytes (slice 44 52 buf);
          initial_state_len = from_le_bytes (slice 52 56 buf);
          frames_offset = from_le_bytes (slice 56 64 buf);
        }))

-- `MrrHeader::read`
unfoldable pub header_read : Medium → IoResult (MrrHeader × Medium)
header_read m = do (buf, m') ← read_exact header_size m; h ← header_of_bytes buf; ok (h, m')

-- The buffer that `MrrFooter::write` fills.
unfoldable pub footer_bytes : MrrFooter → List ℕ
unfolding to_le_bytes
footer_bytes f = do
  let buf = replicate footer_size 0
  let buf = copy_at 0 mrr_footer_magic buf
  let buf = copy_at 4 (to_le_bytes 8 f.index_offset) buf
  let buf = copy_at 12 (to_le_bytes 4 f.index_count) buf
  let buf = copy_at 16 (to_le_bytes 4 f.frame_count) buf
  copy_at 20 (to_le_bytes 8 f.duration_ms) buf

-- `MrrFooter::write`
unfoldable pub footer_write : MrrFooter → Medium → Medium
footer_write f m = write_all (footer_bytes f) m

-- What `MrrFooter::read` makes of its buffer.
unfoldable pub footer_of_bytes : List ℕ → IoResult MrrFooter
footer_of_bytes buf =
    if not (bytes_eq (slice 0 4 buf) mrr_footer_magic)
    then err invalid_data
    else ok (record {
      index_offset = from_le_bytes (slice 4 12 buf);
      index_count = from_le_bytes (slice 12 16 buf);
      frame_count = from_le_bytes (slice 16 20 buf);
      duration_ms = from_le_bytes (slice 20 28 buf);
    })

-- `MrrFooter::read`
unfoldable pub footer_read : Medium → IoResult (MrrFooter × Medium)
footer_read m = do (buf, m') ← read_exact footer_size m; f ← footer_of_bytes buf; ok (f, m')

-- `MrrIndexEntry::write`
unfoldable pub entry_write : MrrIndexEntry → Medium → Medium
entry_write e m =
    write_all (to_le_bytes 8 e.file_offset) (write_all (to_le_bytes 8 e.timestamp_ms) m)

-- `MrrIndexEntry::read`
unfoldable pub entry_read : Medium → IoResult (MrrIndexEntry × Medium)
entry_read m = do
  (buf, m') ← read_exact index_entry_size m
  ok (
    record {
      timestamp_ms = from_le_bytes (slice 0 8 buf);
      file_offset = from_le_bytes (slice 8 16 buf);
    },
    m',
  )
