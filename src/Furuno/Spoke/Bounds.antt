-- ===== src/Furuno/Spoke/Bounds.antt =====
-- Bounds on what the decoders give: the number of pixels, the bytes used, the values.
use mayara.Prelude.{
  ℕ, zero, suc, ◌+◌, ◌%◌, ◌≤◌, ◌≡◌, ap, Bool, true, false, List, [], ◌∷◌, ◌++◌, arith,
  if◌then◌else◌, ltb, ◌==◌, length, get_or, take, drop, replicate, length-take, Bool-cases, inl,
  inr, All, IsByte, min,
}
use mayara.Furuno.Spoke.{
  Body, SpokeFrameHeader, decode_loop, decode_runs, body_1, body_2, body_3, decode_encoding_0,
  decode_encoding_1, decode_encoding_2, decode_encoding_3, decode_sweep, repeat_of, repeat_of_3,
}
use mayara.Furuno.Spoke.Runs.{
  Code, expand, code_1, code_2, code_3, window, last_of_window, decoders_expand,
}

loop_used :
    (body : Body) (n : ℕ) (bs spoke : List ℕ) (s used : ℕ)
    → (decode_loop body n bs spoke s used).1 ≤ used + length bs
unfolding decode_loop
loop_used body n [] spoke s used = omega arith
loop_used body n (b ∷ bs) spoke s used = elim (Bool-cases (ltb (length spoke) n)) [
  | inl room ↦
      rw room (omega (arith, loop_used body n bs (body b spoke s).0 (body b spoke s).1 (used + 1)))
  | inr full ↦ rw full (omega arith)
]

-- What a decoder may report to have used of `bs`: whole words, up to three bytes past the end.
abbrev pub Used : List ℕ → ℕ → Type 0
Used bs used = (used ≤ length bs + 3) × (used % 4 ≡ 0)

decode_runs-Used : (body : Body) (bs : List ℕ) (n : ℕ) → Used bs (decode_runs body bs n).1
unfolding decode_runs
decode_runs-Used body bs n = let h = loop_used body n bs [] 0 0 in (omega (arith, h), omega arith)

All-append : (P : ℕ → Type 0) (xs ys : List ℕ) → All P xs → All P ys → All P (xs ++ ys)
All-append P [] ys hx hy = hy
All-append P (x ∷ xs) ys hx hy = (hx.0, All-append P xs ys hx.1 hy)

pub All-take : (P : ℕ → Type 0) (n : ℕ) (xs : List ℕ) → All P xs → All P (take n xs)
All-take P zero xs h = tt
All-take P (suc n) [] h = tt
All-take P (suc n) (x ∷ xs) h = (h.0, All-take P n xs h.1)

pub All-drop : (P : ℕ → Type 0) (n : ℕ) (xs : List ℕ) → All P xs → All P (drop n xs)
All-drop P zero xs h = h
All-drop P (suc n) [] h = tt
All-drop P (suc n) (x ∷ xs) h = All-drop P n xs h.1

All-replicate : (P : ℕ → Type 0) (n x : ℕ) → P x → All P (replicate n x)
All-replicate P zero x h = tt
All-replicate P (suc n) x h = (h, All-replicate P n x h)

pub get_or-IsByte : (xs : List ℕ) (i : ℕ) → All IsByte xs → IsByte (get_or xs i 0)
get_or-IsByte [] i h = omega arith
get_or-IsByte (x ∷ xs) zero h = h.0
get_or-IsByte (x ∷ xs) (suc i) h = get_or-IsByte xs i h.1

window-IsByte : (prev : List ℕ) (i k : ℕ) → All IsByte prev → All IsByte (window prev i k)
window-IsByte prev i zero h = tt
window-IsByte prev i (suc k) h = (get_or-IsByte prev i h, window-IsByte prev (i + 1) k h)

last_of_window-IsByte :
    (prev : List ℕ) (i k s : ℕ) → All IsByte prev → IsByte s → IsByte (last_of_window prev i k s)
last_of_window-IsByte prev i zero s h v = v
last_of_window-IsByte prev i (suc k) s h v =
    last_of_window-IsByte prev (i + 1) k (get_or prev i 0) h (get_or-IsByte prev i h)

-- A code that turns bytes into bytes.
record KeepsBytes (c : Code) : Type 0 where
  chunk : (b i s : ℕ) → IsByte b → IsByte s → All IsByte (c.chunk b i s)
  after : (b i s : ℕ) → IsByte b → IsByte s → IsByte (c.after b i s)

expand-IsByte :
    (c : Code) (i s : ℕ) (bs : List ℕ)
    → KeepsBytes c
    → IsByte s
    → All IsByte bs
    → All IsByte (expand c i s bs)
expand-IsByte c i s [] k v h = tt
expand-IsByte c i s (b ∷ bs) k v h =
    All-append IsByte (c.chunk b i s) _ (k.chunk b i s h.0 v)
      (expand-IsByte c (i + length (c.chunk b i s)) (c.after b i s) bs k (k.after b i s h.0 v) h.1)

if-All :
    (t : Bool) (xs ys : List ℕ) → All IsByte xs → All IsByte ys → All IsByte (if t then xs else ys)
if-All true xs ys hx hy = hx
if-All false xs ys hx hy = hy

if-IsByte : (t : Bool) (x y : ℕ) → IsByte x → IsByte y → IsByte (if t then x else y)
if-IsByte true x y hx hy = hx
if-IsByte false x y hx hy = hy

keeps_1 : KeepsBytes code_1
keeps_1 = record {
  chunk = λ b i s hb hs.
      if-All (b % 2 == 0) (b ∷ []) (replicate (repeat_of b) s) (hb, tt)
        (All-replicate IsByte (repeat_of b) s hs);
  after = λ b i s hb hs. if-IsByte (b % 2 == 0) b s hb hs;
}

keeps_2 : (prev : List ℕ) → All IsByte prev → KeepsBytes (code_2 prev)
keeps_2 prev hp = record {
  chunk = λ b i s hb hs.
      if-All (b % 2 == 0) (b ∷ []) (window prev i (repeat_of b)) (hb, tt)
        (window-IsByte prev i (repeat_of b) hp);
  after = λ b i s hb hs. hs;
}

keeps_3 : (prev : List ℕ) → All IsByte prev → KeepsBytes (code_3 prev)
keeps_3 prev hp = record {
  chunk = λ b i s hb hs.
      if-All (b % 4 == 0) (b ∷ []) _ (hb, tt)
        (if-All (b % 2 == 0) (window prev i (repeat_of_3 b)) (replicate (repeat_of_3 b) s)
          (window-IsByte prev i (repeat_of_3 b) hp) (All-replicate IsByte (repeat_of_3 b) s hs));
  after = λ b i s hb hs. if-IsByte (b % 4 == 0) b _ hb (
      if-IsByte (b % 2 == 0) (last_of_window prev i (repeat_of_3 b) s) s
        (last_of_window-IsByte prev i (repeat_of_3 b) s hp hs) hs);
}

-- A decoded sweep: at most `n` pixels, all bytes, from a stretch of `bs`.
pub record IsSweep (n : ℕ) (bs : List ℕ) (sweep : List ℕ × ℕ) : Type 0 where
  pub short : length (sweep.0) ≤ n
  pub bytes : All IsByte (sweep.0)
  pub used : sweep.1 ≤ length bs + 3

taken :
    (n : ℕ) (bs xs : List ℕ) (sweep : List ℕ × ℕ)
    → sweep.0 ≡ take n xs
    → All IsByte xs
    → Used bs (sweep.1)
    → IsSweep n bs sweep
taken n bs xs sweep e h u = record {
  short = omega (arith, ap length e, length-take n xs);
  bytes = rw e (All-take IsByte n xs h);
  used = u.0;
}

module _ (n : ℕ) (bs prev : List ℕ) (hb : All IsByte bs) (hp : All IsByte prev) where
  IsSweep-0 : IsSweep n bs (decode_encoding_0 bs n)
  unfolding decode_encoding_0
  IsSweep-0 = record {
    short = omega (arith, length-take (min n (length bs)) bs);
    bytes = All-take IsByte (min n (length bs)) bs hb;
    used = omega arith;
  }

  IsSweep-1 : IsSweep n bs (decode_encoding_1 bs n)
  unfolding decode_encoding_1
  IsSweep-1 =
      taken n bs (expand code_1 0 0 bs) _ ((decoders_expand bs prev n).0)
        (expand-IsByte code_1 0 0 bs keeps_1 (omega arith) hb) (decode_runs-Used (body_1 n) bs n)

  IsSweep-2 : IsSweep n bs (decode_encoding_2 bs prev n)
  unfolding decode_encoding_2
  IsSweep-2 =
      taken n bs (expand (code_2 prev) 0 0 bs) _ ((decoders_expand bs prev n).1)
        (expand-IsByte (code_2 prev) 0 0 bs (keeps_2 prev hp) (omega arith) hb)
        (decode_runs-Used (body_2 n prev) bs n)

  IsSweep-3 : IsSweep n bs (decode_encoding_3 bs prev n)
  unfolding decode_encoding_3
  IsSweep-3 =
      taken n bs (expand (code_3 prev) 0 0 bs) _ ((decoders_expand bs prev n).2)
        (expand-IsByte (code_3 prev) 0 0 bs (keeps_3 prev hp) (omega arith) hb)
        (decode_runs-Used (body_3 n prev) bs n)

if-IsSweep :
    {n : ℕ} {bs : List ℕ} {x y : List ℕ × ℕ} (t : Bool)
    → IsSweep n bs x
    → IsSweep n bs y
    → IsSweep n bs (if t then x else y)
if-IsSweep true hx hy = hx
if-IsSweep false hx hy = hy

-- Whatever the encoding, a sweep has at most the header's number of pixels, which are bytes.
pub decode_sweep-IsSweep :
    (h : SpokeFrameHeader) (i : ℕ) (prev bs : List ℕ)
    → All IsByte bs
    → All IsByte prev
    → IsSweep h.sweep_len bs (decode_sweep h i prev bs)
unfolding decode_sweep
decode_sweep-IsSweep h i prev bs hb hp =
    let n = h.sweep_len in
    if-IsSweep (h.encoding == 0) (IsSweep-0 n bs prev hb hp) (
      if-IsSweep (h.encoding == 1) (IsSweep-1 n bs prev hb hp) (
        if-IsSweep (h.encoding == 2)
          (if-IsSweep (i == 0) (IsSweep-1 n bs prev hb hp) (IsSweep-2 n bs prev hb hp))
          (if-IsSweep (h.encoding == 3) (IsSweep-3 n bs prev hb hp)
            (record { short = omega arith; bytes = tt; used = omega arith }))))
