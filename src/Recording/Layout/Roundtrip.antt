-- ===== src/Recording/Layout/Roundtrip.antt =====
-- Reading back the bytes of an MRR header, footer and index entry.
use mayara.Prelude.{
  ℕ, ◌+◌, ◌^◌, ◌≤◌, ◌<◌, ◌≡◌, refl, List, ◌++◌, arith, length, ap, ltb, false, from_le_bytes,
  to_le_bytes, from_le_bytes-to_le_bytes,
}
use mayara.Recording.Medium.{
  ok, Medium, read_exact, ahead, read_exact-ahead, append, AtEnd, write_all-AtEnd, append-AtEnd,
  append-append,
}
use mayara.Recording.Layout.{
  MrrHeader, MrrFooter, MrrIndexEntry, header_bytes, header_of_bytes, header_read, footer_bytes,
  footer_of_bytes, footer_read, entry_write, entry_read, header_size, footer_size, mrr_version,
  index_entry_size,
}

-- Each field fits its machine type, and the version is a supported one.
pub record IsHeader (h : MrrHeader) : Type 0 where
  pub version : h.version ≤ mrr_version
  pub flags : h.flags < 256 ^ 2
  pub radar_brand : h.radar_brand < 256 ^ 4
  pub spokes_per_rev : h.spokes_per_rev < 256 ^ 4
  pub max_spoke_len : h.max_spoke_len < 256 ^ 4
  pub pixel_values : h.pixel_values < 256 ^ 4
  pub start_time_ms : h.start_time_ms < 256 ^ 8
  pub capabilities_offset : h.capabilities_offset < 256 ^ 8
  pub capabilities_len : h.capabilities_len < 256 ^ 4
  pub initial_state_offset : h.initial_state_offset < 256 ^ 8
  pub initial_state_len : h.initial_state_len < 256 ^ 4
  pub frames_offset : h.frames_offset < 256 ^ 8

pub record IsFooter (f : MrrFooter) : Type 0 where
  pub index_offset : f.index_offset < 256 ^ 8
  pub index_count : f.index_count < 256 ^ 4
  pub frame_count : f.frame_count < 256 ^ 4
  pub duration_ms : f.duration_ms < 256 ^ 8

pub record IsEntry (e : MrrIndexEntry) : Type 0 where
  pub timestamp_ms : e.timestamp_ms < 256 ^ 8
  pub file_offset : e.file_offset < 256 ^ 8

le2 : (v : ℕ) → v < 256 ^ 2 → from_le_bytes (to_le_bytes 2 v) ≡ v
le2 = from_le_bytes-to_le_bytes 2

le4 : (v : ℕ) → v < 256 ^ 4 → from_le_bytes (to_le_bytes 4 v) ≡ v
le4 = from_le_bytes-to_le_bytes 4

le8 : (v : ℕ) → v < 256 ^ 8 → from_le_bytes (to_le_bytes 8 v) ≡ v
le8 = from_le_bytes-to_le_bytes 8

version_supported :
    (v : ℕ) → v ≤ mrr_version → ltb mrr_version (from_le_bytes (to_le_bytes 2 v)) ≡ false
version_supported v h = rw (le2 v (omega arith)) (ground arith)

-- the header read back, before its fields are known to fit
abbrev reread : MrrHeader → MrrHeader
reread h = record {
  version = from_le_bytes (to_le_bytes 2 h.version);
  flags = from_le_bytes (to_le_bytes 2 h.flags);
  radar_brand = from_le_bytes (to_le_bytes 4 h.radar_brand);
  spokes_per_rev = from_le_bytes (to_le_bytes 4 h.spokes_per_rev);
  max_spoke_len = from_le_bytes (to_le_bytes 4 h.max_spoke_len);
  pixel_values = from_le_bytes (to_le_bytes 4 h.pixel_values);
  start_time_ms = from_le_bytes (to_le_bytes 8 h.start_time_ms);
  capabilities_offset = from_le_bytes (to_le_bytes 8 h.capabilities_offset);
  capabilities_len = from_le_bytes (to_le_bytes 4 h.capabilities_len);
  initial_state_offset = from_le_bytes (to_le_bytes 8 h.initial_state_offset);
  initial_state_len = from_le_bytes (to_le_bytes 4 h.initial_state_len);
  frames_offset = from_le_bytes (to_le_bytes 8 h.frames_offset);
}

reread_lem : (h : MrrHeader) → IsHeader h → reread h ≡ h
reread_lem h v = λ i. record {
  version = le2 h.version (omega arith) i;
  flags = le2 h.flags v.flags i;
  radar_brand = le4 h.radar_brand v.radar_brand i;
  spokes_per_rev = le4 h.spokes_per_rev v.spokes_per_rev i;
  max_spoke_len = le4 h.max_spoke_len v.max_spoke_len i;
  pixel_values = le4 h.pixel_values v.pixel_values i;
  start_time_ms = le8 h.start_time_ms v.start_time_ms i;
  capabilities_offset = le8 h.capabilities_offset v.capabilities_offset i;
  capabilities_len = le4 h.capabilities_len v.capabilities_len i;
  initial_state_offset = le8 h.initial_state_offset v.initial_state_offset i;
  initial_state_len = le4 h.initial_state_len v.initial_state_len i;
  frames_offset = le8 h.frames_offset v.frames_offset i;
}

-- A header whose fields fit their words, of a version that is read, is read back from its 256 bytes.
pub header_of_bytes-header_bytes :
    (h : MrrHeader) → IsHeader h → header_of_bytes (header_bytes h) ≡ ok h
unfolding header_of_bytes header_bytes
header_of_bytes-header_bytes h v =
    rw (version_supported h.version v.version) (ap ok (reread_lem h v))

pub length-header_bytes : (h : MrrHeader) → length (header_bytes h) ≡ header_size
unfolding header_bytes
length-header_bytes h = refl

pub footer_of_bytes-footer_bytes :
    (f : MrrFooter) → IsFooter f → footer_of_bytes (footer_bytes f) ≡ ok f
unfolding footer_of_bytes footer_bytes
footer_of_bytes-footer_bytes f v = λ i. ok (record {
  index_offset = le8 f.index_offset v.index_offset i;
  index_count = le4 f.index_count v.index_count i;
  frame_count = le4 f.frame_count v.frame_count i;
  duration_ms = le8 f.duration_ms v.duration_ms i;
})

pub length-footer_bytes : (f : MrrFooter) → length (footer_bytes f) ≡ footer_size
unfolding footer_bytes
length-footer_bytes f = refl

-- Reading where a header lies ahead returns it and moves past it.
pub header_read-ahead :
    (h : MrrHeader) (rest : List ℕ) (m : Medium)
    → IsHeader h
    → ahead m ≡ header_bytes h ++ rest
    → header_read m ≡ ok (h, record m { pos = m.pos + header_size })
unfolding header_read
header_read-ahead h rest m v a =
    let r : read_exact header_size m ≡ ok (header_bytes h, record m { pos = m.pos + header_size }) =
      rw (← length-header_bytes h) (read_exact-ahead (header_bytes h) rest m a) in
    rw (r, header_of_bytes-header_bytes h v)

-- The same for a footer.
pub footer_read-ahead :
    (f : MrrFooter) (rest : List ℕ) (m : Medium)
    → IsFooter f
    → ahead m ≡ footer_bytes f ++ rest
    → footer_read m ≡ ok (f, record m { pos = m.pos + footer_size })
unfolding footer_read
footer_read-ahead f rest m v a =
    let r : read_exact footer_size m ≡ ok (footer_bytes f, record m { pos = m.pos + footer_size }) =
      rw (← length-footer_bytes f) (read_exact-ahead (footer_bytes f) rest m a) in
    rw (r, footer_of_bytes-footer_bytes f v)

-- The bytes of an index entry.
abbrev pub entry_bytes : MrrIndexEntry → List ℕ
entry_bytes e = to_le_bytes 8 e.timestamp_ms ++ to_le_bytes 8 e.file_offset

pub entry_write-AtEnd :
    (e : MrrIndexEntry) (m : Medium) → AtEnd m → entry_write e m ≡ append m (entry_bytes e)
unfolding entry_write
entry_write-AtEnd e m h =
    let stamp = to_le_bytes 8 e.timestamp_ms in
    let offset = to_le_bytes 8 e.file_offset in
    rw (write_all-AtEnd stamp m h, write_all-AtEnd offset (append m stamp) (append-AtEnd m stamp h))
      (append-append m stamp offset)

pub entry_read-ahead :
    (e : MrrIndexEntry) (rest : List ℕ) (m : Medium)
    → IsEntry e
    → ahead m ≡ entry_bytes e ++ rest
    → entry_read m ≡ ok (e, record m { pos = m.pos + index_entry_size })
unfolding entry_read to_le_bytes
entry_read-ahead e rest m v a = rw (read_exact-ahead (entry_bytes e) rest m a) λ i. ok (
  record {
    timestamp_ms = le8 e.timestamp_ms v.timestamp_ms i;
    file_offset = le8 e.file_offset v.file_offset i;
  },
  record m { pos = m.pos + index_entry_size },
)
