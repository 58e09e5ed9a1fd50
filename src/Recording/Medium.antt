-- ===== src/Recording/Medium.antt =====
-- The `Read`, `Write` and `Seek` of std::io, at an in-memory `Cursor<Vec<u8>>`, which is what the
-- code's own tests use: writes always succeed and grow the content, reads past the end fail.
use mayara.Prelude.{
  ℕ, ◌+◌, ◌-◌, ◌≡◌, sym, ap, true, List, [], ◌∷◌, ◌++◌, arith, ltb, leb, if◌then◌else◌, length,
  take, drop, replicate, length-append, length-drop, le→leb, take-append, drop-append, drop-add,
  take_all, drop_all,
}
use mathlib.Core.List.{append-nil, append_assoc}

-- The kinds of `io::Error` that arise.
pub data IoError : Type 0 where
  unexpected_eof invalid_data invalid_input : IoError

-- `io::Result`.
pub data IoResult {ℓ} (A : Type ℓ) : Type ℓ where
  ok : A → IoResult A
  err : IoError → IoResult A

infixl 5 ◌>>=◌
abbrev pub ◌>>=◌ {ℓ κ} : {A : Type ℓ} {B : Type κ} → IoResult A → (A → IoResult B) → IoResult B
ok a >>= f = f a
err e >>= f = err e

pub record Medium : Type 0 where
  pub content : List ℕ
  pub pos : ℕ

-- `write_all`: overwrites at the position, and fills with zeros what a seek past the end left open.
-- With nothing to write it makes no call.
unfoldable pub write_all : List ℕ → Medium → Medium
write_all [] m = m
write_all (b ∷ bs) m = record {
  content =
      take m.pos (m.content ++ replicate (m.pos - length m.content) 0)
      ++ ((b ∷ bs) ++ drop (m.pos + length (b ∷ bs)) m.content);
  pos = m.pos + length (b ∷ bs);
}

-- `read_exact` into a buffer of `n` bytes.
unfoldable pub read_exact : ℕ → Medium → IoResult (List ℕ × Medium)
read_exact n m =
    if leb n (length m.content - m.pos)
    then ok (take n (drop m.pos m.content), record m { pos = m.pos + n })
    else err unexpected_eof

-- `seek(SeekFrom::Start(n))`, `seek(SeekFrom::End(-n))` and `seek(SeekFrom::Current(-n))`.
unfoldable pub seek_start : ℕ → Medium → Medium
seek_start n m = record m { pos = n }

unfoldable pub seek_end_back : ℕ → Medium → IoResult Medium
seek_end_back n m =
    if ltb (length m.content) n
    then err invalid_input
    else ok (record m { pos = length m.content - n })

unfoldable pub seek_back : ℕ → Medium → IoResult Medium
seek_back n m = if ltb m.pos n then err invalid_input else ok (record m { pos = m.pos - n })

-- A file that is being written from front to back.
abbrev pub AtEnd : Medium → Type 0
AtEnd m = m.pos ≡ length m.content

abbrev pub append : Medium → List ℕ → Medium
append m bs = record { content = m.content ++ bs; pos = m.pos + length bs }

pub append-AtEnd : (m : Medium) (bs : List ℕ) → AtEnd m → AtEnd (append m bs)
append-AtEnd m bs h = omega (arith, length-append m.content bs)

pub append-append : (m : Medium) (xs bs : List ℕ) → append (append m xs) bs ≡ append m (xs ++ bs)
append-append m xs bs =
    let c : (m.content ++ xs) ++ bs ≡ m.content ++ (xs ++ bs) = append_assoc m.content xs bs in
    let p : m.pos + length xs + length bs ≡ m.pos + length (xs ++ bs) =
      omega (arith, length-append xs bs) in
    λ i. record { content = c i; pos = p i }

pub append-none : (m : Medium) → m ≡ append m []
append-none m =
    let c : m.content ≡ m.content ++ [] = sym (append-nil m.content) in
    let p : m.pos ≡ m.pos + 0 = omega arith in λ i. record { content = c i; pos = p i }

pub write_all-AtEnd : (bs : List ℕ) (m : Medium) → AtEnd m → write_all bs m ≡ append m bs
unfolding write_all
write_all-AtEnd [] m h = append-none m
write_all-AtEnd (b ∷ bs) m h =
    let none_open : m.pos - length m.content ≡ 0 = omega arith in
    let c : take m.pos (m.content ++ replicate (m.pos - length m.content) 0)
          ++ ((b ∷ bs) ++ drop (m.pos + length (b ∷ bs)) m.content)
        ≡ m.content ++ (b ∷ bs) =
      rw (none_open, drop_all (m.pos + length (b ∷ bs)) m.content (omega arith))
        (simp (append-nil, take_all m.pos m.content (omega arith))) in
    λ i. record { content = c i; pos = m.pos + length (b ∷ bs) }

-- What lies ahead of the position.
abbrev pub ahead : Medium → List ℕ
ahead m = drop m.pos m.content

pub read_exact-ahead :
    (bs rest : List ℕ) (m : Medium)
    → ahead m ≡ bs ++ rest
    → read_exact (length bs) m ≡ ok (bs, record m { pos = m.pos + length bs })
unfolding read_exact
read_exact-ahead bs rest m h =
    let room : leb (length bs) (length m.content - m.pos) ≡ true =
      le→leb _ _ (omega (arith, length-drop m.pos m.content, ap length h, length-append bs rest)) in
    rw (room, h, take-append bs rest)

pub ahead_advance :
    (bs rest : List ℕ) (m : Medium)
    → ahead m ≡ bs ++ rest
    → drop (m.pos + length bs) m.content ≡ rest
ahead_advance bs rest m h = rw (drop-add m.pos (length bs) m.content, h) (drop-append bs rest)
