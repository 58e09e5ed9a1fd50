-- ===== src/Packet/Sample.antt =====
-- A `bincode` that does as documented, for concrete runs.
use mayara.Prelude.{ℕ, ◌≤◌, ◌≡◌, refl, List, leb, length, if◌then◌else◌, le→leb}
use mayara.Packet.{Outcome, ok, err, deserialization_failed}
use mayara.Packet.Struct.{Bincode, size_of, fields}

abbrev pub deserialize : List ℕ → List ℕ → Outcome (List (List ℕ))
deserialize ws bs =
    if leb (size_of ws) (length bs) then ok (fields ws bs) else err deserialization_failed

pub deserialize_fields :
    (ws bs : List ℕ) → size_of ws ≤ length bs → deserialize ws bs ≡ ok (fields ws bs)
deserialize_fields ws bs h = rw (le→leb (size_of ws) (length bs) h) refl

abbrev pub sample_bincode : Bincode
sample_bincode = record { deserialize = deserialize; deserialize_lem = deserialize_fields }
