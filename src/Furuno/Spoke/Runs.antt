-- ===== src/Furuno/Spoke/Runs.antt =====
-- The run-length decoders against a description of the pixels that each byte stands for.
use mayara.Prelude.{
  ℕ, zero, suc, ◌+◌, ◌%◌, ◌≤◌, ◌<◌, ◌≡◌, refl, sym, ◌∙◌, ap, false, List, [], ◌∷◌, ◌++◌, arith,
  if◌then◌else◌, ltb, leb, ◌==◌, length, get_or, take, replicate, length-append, take_all,
  Bool-cases, inl, inr, length-take, leb→le, ltb→lt,
}
use mathlib.Core.List.{append-nil, append_assoc}
use mayara.Furuno.Spoke.{
  Body, push_repeat, push_previous, repeat_of, repeat_of_3, body_1, body_2, body_3, decode_loop,
  decode_encoding_1, decode_encoding_2, decode_encoding_3,
}

module _ {ℓ} {A : Type ℓ} where
  take-append_le : (n : ℕ) (xs ys : List A) → n ≤ length xs → take n (xs ++ ys) ≡ take n xs
  take-append_le zero xs ys h = refl
  take-append_le (suc n) [] ys h = absurd (omega arith)
  take-append_le (suc n) (x ∷ xs) ys h = ap (λ l. x ∷ l) (take-append_le n xs ys (omega arith))

  take_full : (n : ℕ) (xs ys : List A) → length xs ≡ n → take n (xs ++ ys) ≡ xs
  take_full n xs ys h = take-append_le n xs ys (omega arith) ∙ take_all n xs (omega arith)

  length-snoc : (xs : List A) (x : A) → length (xs ++ (x ∷ [])) ≡ length xs + 1
  length-snoc xs x = length-append xs (x ∷ [])

push_repeat_lem :
    (k n s : ℕ) (spoke : List ℕ)
    → length spoke ≤ n
    → push_repeat k n s spoke ≡ take n (spoke ++ replicate k s)
unfolding push_repeat
push_repeat_lem zero n s spoke h = rw (append-nil spoke) (sym (take_all n spoke h))
push_repeat_lem (suc k) n s spoke h = elim (Bool-cases (leb n (length spoke))) [
  | inl full ↦ rw full (sym (take_full n spoke _ (omega (arith, leb→le _ _ full))))
  | inr more ↦ rw more (
      push_repeat_lem k n s (spoke ++ (s ∷ [])) (ground (arith, length-snoc spoke s))
      ∙ ap (take n) (append_assoc spoke (s ∷ []) (replicate k s)))
]

-- `k` pixels of the previous spoke from place `i` on, 0 where it has none
abbrev pub window : List ℕ → ℕ → ℕ → List ℕ
window prev i zero = []
window prev i (suc k) = get_or prev i 0 ∷ window prev (i + 1) k

length-window : (prev : List ℕ) (i k : ℕ) → length (window prev i k) ≡ k
length-window prev i zero = refl
length-window prev i (suc k) = ap suc (length-window prev (i + 1) k)

-- the last of them, or `s` if there is none
abbrev pub last_of_window : List ℕ → ℕ → ℕ → ℕ → ℕ
last_of_window prev i zero s = s
last_of_window prev i (suc k) s = last_of_window prev (i + 1) k (get_or prev i 0)

push_previous_lem :
    (k n : ℕ) (prev : List ℕ) (s : ℕ) (spoke : List ℕ)
    → length spoke ≤ n
    → (push_previous k n prev s spoke).0 ≡ take n (spoke ++ window prev (length spoke) k)
unfolding push_previous
push_previous_lem zero n prev s spoke h = rw (append-nil spoke) (sym (take_all n spoke h))
push_previous_lem (suc k) n prev s spoke h = elim (Bool-cases (leb n (length spoke))) [
  | inl full ↦ rw full (sym (take_full n spoke _ (omega (arith, leb→le _ _ full))))
  | inr more ↦
      let p = get_or prev (length spoke) 0 in
      rw more (
        push_previous_lem k n prev p (spoke ++ (p ∷ [])) (ground (arith, length-snoc spoke p))
        ∙ (rw (length-snoc spoke p)
            (ap (take n) (append_assoc spoke (p ∷ []) (window prev (length spoke + 1) k)))))
]

push_previous_strength :
    (k n : ℕ) (prev : List ℕ) (s : ℕ) (spoke : List ℕ)
    → length spoke + k ≤ n
    → (push_previous k n prev s spoke).1 ≡ last_of_window prev (length spoke) k s
unfolding push_previous
push_previous_strength zero n prev s spoke h = refl
push_previous_strength (suc k) n prev s spoke h =
    let p = get_or prev (length spoke) 0 in
    let more : leb n (length spoke) ≡ false = ground arith in
    rw more (
      push_previous_strength k n prev p (spoke ++ (p ∷ [])) (omega (arith, length-snoc spoke p))
      ∙ (rw (length-snoc spoke p)))

-- What a byte stands for: the pixels it adds at a place, and the strength behind them.
pub record Code : Type 0 where
  pub chunk : ℕ → ℕ → ℕ → List ℕ
  pub after : ℕ → ℕ → ℕ → ℕ

-- The pixels that a row of bytes stands for, from a place and with a strength.
abbrev pub expand : Code → ℕ → ℕ → List ℕ → List ℕ
expand c i s [] = []
expand c i s (b ∷ bs) = c.chunk b i s ++ expand c (i + length (c.chunk b i s)) (c.after b i s) bs

-- A loop body adds the chunk of its byte, cut at the sweep's length.
record Emits (n : ℕ) (body : Body) (c : Code) : Type 0 where
  adds :
      (b : ℕ) (spoke : List ℕ) (s : ℕ)
      → length spoke < n
      → (body b spoke s).0 ≡ take n (spoke ++ c.chunk b (length spoke) s)
  keeps :
      (b : ℕ) (spoke : List ℕ) (s : ℕ)
      → length spoke + length (c.chunk b (length spoke) s) < n
      → (body b spoke s).1 ≡ c.after b (length spoke) s

module _ (n : ℕ) (body : Body) (c : Code) (em : Emits n body c) where
  loop_full :
      (bs spoke : List ℕ) (s used : ℕ)
      → n ≤ length spoke
      → (decode_loop body n bs spoke s used).0 ≡ spoke
  unfolding decode_loop
  loop_full [] spoke s used h = refl
  loop_full (b ∷ bs) spoke s used h =
      let done : ltb (length spoke) n ≡ false = ground arith in rw done

  -- a byte whose pixels fill the sweep
  byte_fills :
      (b : ℕ) (bs spoke rest : List ℕ) (s used : ℕ)
      → length spoke < n
      → n ≤ length spoke + length (c.chunk b (length spoke) s)
      → (decode_loop body n bs (body b spoke s).0 (body b spoke s).1 used).0
        ≡ take n (spoke ++ (c.chunk b (length spoke) s ++ rest))
  byte_fills b bs spoke rest s used h fills =
      let chunk = c.chunk b (length spoke) s in
      let whole : n ≤ length (spoke ++ chunk) = omega (arith, length-append spoke chunk) in
      let added = em.adds b spoke s h in
      let long : n ≤ length (body b spoke s).0 =
        omega (arith, ap length added, length-take n (spoke ++ chunk)) in
      loop_full bs (body b spoke s).0 (body b spoke s).1 used long
      ∙ added
      ∙ sym (
          ap (take n) (sym (append_assoc spoke chunk rest))
          ∙ take-append_le n (spoke ++ chunk) rest whole)

  -- a byte whose pixels leave room
  byte_fits :
      (b : ℕ) (spoke : List ℕ) (s : ℕ)
      → length spoke + length (c.chunk b (length spoke) s) < n
      → body b spoke s ≡ (spoke ++ c.chunk b (length spoke) s, c.after b (length spoke) s)
  byte_fits b spoke s fits =
      let chunk = c.chunk b (length spoke) s in
      let whole : take n (spoke ++ chunk) ≡ spoke ++ chunk =
        take_all n (spoke ++ chunk) (omega (arith, length-append spoke chunk)) in
      let added = em.adds b spoke s (omega arith) ∙ whole in
      λ i. (added i, em.keeps b spoke s fits i)

  loop_lem :
      (bs spoke : List ℕ) (s used : ℕ)
      → length spoke ≤ n
      → (decode_loop body n bs spoke s used).0 ≡ take n (spoke ++ expand c (length spoke) s bs)
  unfolding decode_loop
  loop_lem [] spoke s used h = rw (append-nil spoke) (sym (take_all n spoke h))
  loop_lem (b ∷ bs) spoke s used h = elim (Bool-cases (ltb (length spoke) n)) [
    | inr full ↦ rw full (sym (take_full n spoke _ (ground arith)))
    | inl room ↦
        rw room (elim (Bool-cases (ltb (length spoke + length (c.chunk b (length spoke) s)) n)) [
          | inr fills ↦ byte_fills b bs spoke _ s (used + 1) (ltb→lt _ _ room) (ground arith)
          | inl fits ↦
              let chunk = c.chunk b (length spoke) s in
              let s' = c.after b (length spoke) s in
              rw (byte_fits b spoke s (ltb→lt _ _ fits)) (
                loop_lem bs (spoke ++ chunk) s' (used + 1)
                  (omega (arith, length-append spoke chunk, ltb→lt _ _ fits))
                ∙ (rw (length-append spoke chunk) (ap (take n) (append_assoc spoke chunk _))))
        ])
  ]

-- Encoding 1: an even byte is a pixel, an odd one repeats the last.
abbrev pub code_1 : Code
code_1 = record {
  chunk = λ b i s. if b % 2 == 0 then b ∷ [] else replicate (repeat_of b) s;
  after = λ b i s. if b % 2 == 0 then b else s;
}

-- Encoding 2: an odd byte repeats what the previous spoke has there.
abbrev pub code_2 : List ℕ → Code
code_2 prev = record {
  chunk = λ b i s. if b % 2 == 0 then b ∷ [] else window prev i (repeat_of b);
  after = λ b i s. s;
}

-- Encoding 3: a multiple of four is a pixel, another even byte repeats the previous spoke, an odd
-- one repeats the last pixel.
abbrev pub code_3 : List ℕ → Code
code_3 prev = record {
  chunk = λ b i s.
      if b % 4 == 0
      then b ∷ []
      else (if b % 2 == 0 then window prev i (repeat_of_3 b) else replicate (repeat_of_3 b) s);
  after = λ b i s.
      if b % 4 == 0 then b else (if b % 2 == 0 then last_of_window prev i (repeat_of_3 b) s else s);
}

snoc_fits :
    (n : ℕ) (spoke : List ℕ) (b : ℕ)
    → length spoke < n
    → spoke ++ (b ∷ []) ≡ take n (spoke ++ (b ∷ []))
snoc_fits n spoke b h = sym (take_all n (spoke ++ (b ∷ [])) (omega (arith, length-snoc spoke b)))

body_1-Emits : (n : ℕ) → Emits n (body_1 n) code_1
unfolding body_1
body_1-Emits n = record {
  adds = λ b spoke s h. elim (Bool-cases (b % 2 == 0)) [
    | inl pixel ↦ rw pixel (snoc_fits n spoke b h)
    | inr run ↦ rw run (push_repeat_lem (repeat_of b) n s spoke (omega arith))
  ];
  keeps = λ b spoke s h. elim (Bool-cases (b % 2 == 0)) [ inl pixel ↦ rw pixel | inr run ↦ rw run ];
}

body_2-Emits : (n : ℕ) (prev : List ℕ) → Emits n (body_2 n prev) (code_2 prev)
unfolding body_2
body_2-Emits n prev = record {
  adds = λ b spoke s h. elim (Bool-cases (b % 2 == 0)) [
    | inl pixel ↦ rw pixel (snoc_fits n spoke b h)
    | inr run ↦ rw run (push_previous_lem (repeat_of b) n prev 0 spoke (omega arith))
  ];
  keeps = λ b spoke s h. elim (Bool-cases (b % 2 == 0)) [ inl pixel ↦ rw pixel | inr run ↦ rw run ];
}

body_3-Emits : (n : ℕ) (prev : List ℕ) → Emits n (body_3 n prev) (code_3 prev)
unfolding body_3
body_3-Emits n prev = record {
  adds = λ b spoke s h. elim (Bool-cases (b % 4 == 0)) [
    | inl pixel ↦ rw pixel (snoc_fits n spoke b h)
    | inr run ↦ rw run (elim (Bool-cases (b % 2 == 0)) [
      | inl before ↦ rw before (push_previous_lem (repeat_of_3 b) n prev s spoke (omega arith))
      | inr again ↦ rw again (push_repeat_lem (repeat_of_3 b) n s spoke (omega arith))
    ])
  ];
  keeps = λ b spoke s h. elim (Bool-cases (b % 4 == 0)) [
    | inl pixel ↦ rw pixel
    | inr run ↦ elim (Bool-cases (b % 2 == 0)) [
      | inl before ↦
          rw (run, before)
            (push_previous_strength (repeat_of_3 b) n prev s spoke (
              omega (
                arith,
                length-window prev (length spoke) (repeat_of_3 b),
                (rw (run, before) at h),
              )))
      | inr again ↦ rw (run, again)
    ]
  ];
}

-- Each run-length decoder gives the pixels that the bytes stand for, cut at the sweep's length:
-- encodings 1, 2 and 3 for their codes, from place 0 and strength 0.
pub decoders_expand :
    (bs prev : List ℕ) (n : ℕ)
    → ((decode_encoding_1 bs n).0 ≡ take n (expand code_1 0 0 bs))
      × ((decode_encoding_2 bs prev n).0 ≡ take n (expand (code_2 prev) 0 0 bs))
      × ((decode_encoding_3 bs prev n).0 ≡ take n (expand (code_3 prev) 0 0 bs))
unfolding decode_encoding_1 decode_encoding_2 decode_encoding_3
decoders_expand bs prev n = (
  loop_lem n (body_1 n) code_1 (body_1-Emits n) bs [] 0 0 (omega arith),
  loop_lem n (body_2 n prev) (code_2 prev) (body_2-Emits n prev) bs [] 0 0 (omega arith),
  loop_lem n (body_3 n prev) (code_3 prev) (body_3-Emits n prev) bs [] 0 0 (omega arith),
)
