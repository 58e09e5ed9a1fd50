-- ===== src/Raymarine/Spoke/Runs.antt =====
-- The run-length decoder against an encoder.
use mayara.Prelude.{
  ℕ, zero, suc, ◌≡◌, ◌≢◌, refl, sym, ap, ◌∙◌, Bool, false, List, [], ◌∷◌, ◌++◌, ◌==◌, take, arith,
  Bool-cases, inl, inr, All,
}
use mathlib.Core.List.{append-nil, append_assoc}
use mayara.Raymarine.Spoke.{
  escape, push_run, decompress_loop, quantum_pixels, rd_pixels, decompress_quantum_spoke,
  decompress_rd_spoke,
}

-- What a row of bytes says: bytes of its own, and runs.
pub data Token : Type 0 where
  lone : ℕ → Token
  run : ℕ → ℕ → Token

-- A byte of its own is no escape.
abbrev pub IsToken : Token → Type 0
IsToken (lone b) = b ≢ escape
IsToken (run count b) = Unit

abbrev pub encode : List Token → List ℕ
encode [] = []
encode (lone b ∷ ts) = b ∷ encode ts
encode (run count b ∷ ts) = escape ∷ (count ∷ (b ∷ encode ts))

-- What may follow the tokens: an escape that is cut off, or nothing.
pub data Tail : List ℕ → Type 0 where
  complete : Tail []
  cut_0 : Tail (escape ∷ [])
  cut_1 : (c : ℕ) → Tail (escape ∷ (c ∷ []))

module _ (pixels : ℕ → List ℕ) where
  abbrev pub repeated : ℕ → ℕ → List ℕ
  repeated zero b = []
  repeated (suc n) b = pixels b ++ repeated n b

  -- The pixels that a row of tokens stands for.
  abbrev pub expand : List Token → List ℕ
  expand [] = []
  expand (lone b ∷ ts) = pixels b ++ expand ts
  expand (run count b ∷ ts) = repeated count b ++ expand ts

  push_run_lem : (n b : ℕ) (out : List ℕ) → push_run n (pixels b) out ≡ out ++ repeated n b
  unfolding push_run
  push_run_lem zero b out = sym (append-nil out)
  push_run_lem (suc n) b out =
      push_run_lem n b (out ++ pixels b) ∙ append_assoc out (pixels b) (repeated n b)

  lone_lem :
      (b : ℕ) (bs out : List ℕ)
      → b ≢ escape
      → decompress_loop pixels (b ∷ bs) out ≡ decompress_loop pixels bs (out ++ pixels b)
  unfolding decompress_loop
  lone_lem b [] out h = let e : (b == escape) ≡ false = ground arith in rw e
  lone_lem b (c ∷ []) out h = let e : (b == escape) ≡ false = ground arith in rw e
  lone_lem b (c ∷ (v ∷ bs)) out h = let e : (b == escape) ≡ false = ground arith in rw e

  tail_lem : (bs out : List ℕ) → Tail bs → decompress_loop pixels bs out ≡ out
  unfolding decompress_loop
  tail_lem _ out complete = refl
  tail_lem _ out cut_0 = refl
  tail_lem _ out (cut_1 c) = refl

  pub loop_lem :
      (ts : List Token) (rest out : List ℕ)
      → All IsToken ts
      → Tail rest
      → decompress_loop pixels (encode ts ++ rest) out ≡ out ++ expand ts
  unfolding decompress_loop
  loop_lem [] rest out h t = tail_lem rest out t ∙ sym (append-nil out)
  loop_lem (lone b ∷ ts) rest out h t =
      lone_lem b (encode ts ++ rest) out h.0
      ∙ loop_lem ts rest (out ++ pixels b) h.1 t
      ∙ append_assoc out (pixels b) (expand ts)
  loop_lem (run count b ∷ ts) rest out h t =
      loop_lem ts rest (push_run count (pixels b) out) h.1 t
      ∙ (rw (push_run_lem count b out) (append_assoc out (repeated count b) (expand ts)))

-- Every row of bytes is read as tokens and a tail.
pub record Reading (bs : List ℕ) : Type 0 where
  pub tokens : List Token
  pub rest : List ℕ
  pub whole : bs ≡ encode tokens ++ rest
  pub valid : All IsToken tokens
  pub ends : Tail rest

read_lone : (b : ℕ) (bs : List ℕ) → b ≢ escape → Reading bs → Reading (b ∷ bs)
read_lone b bs h r = record {
  tokens = lone b ∷ r.tokens;
  rest = r.rest;
  whole = ap (λ t. b ∷ t) r.whole;
  valid = (h, r.valid);
  ends = r.ends;
}

read_run : (b c v : ℕ) (bs : List ℕ) → b ≡ escape → Reading bs → Reading (b ∷ (c ∷ (v ∷ bs)))
read_run b c v bs h r = record {
  tokens = run c v ∷ r.tokens;
  rest = r.rest;
  whole = λ i. h i ∷ (c ∷ (v ∷ r.whole i));
  valid = (tt, r.valid);
  ends = r.ends;
}

read-Tail : (bs cut : List ℕ) → bs ≡ cut → Tail cut → Reading bs
read-Tail bs cut e t = record { tokens = []; rest = cut; whole = e; valid = tt; ends = t }

pub reading : (bs : List ℕ) → Reading bs
reading [] = read-Tail [] [] refl complete
reading (b ∷ []) = elim (Bool-cases (b == escape)) [
  | inl e ↦
      let h : b ≡ escape = ground arith in
      read-Tail (b ∷ []) (escape ∷ []) (ap (λ x. x ∷ []) h) cut_0
  | inr e ↦ read_lone b [] (ground arith) (reading [])
]
reading (b ∷ (c ∷ [])) = elim (Bool-cases (b == escape)) [
  | inl e ↦
      let h : b ≡ escape = ground arith in
      read-Tail (b ∷ (c ∷ [])) (escape ∷ (c ∷ [])) (ap (λ x. x ∷ (c ∷ [])) h) (cut_1 c)
  | inr e ↦ read_lone b (c ∷ []) (ground arith) (reading (c ∷ []))
]
reading (b ∷ (c ∷ (v ∷ bs))) = elim (Bool-cases (b == escape)) [
  | inl e ↦ read_run b c v bs (ground arith) (reading bs)
  | inr e ↦ read_lone b (c ∷ (v ∷ bs)) (ground arith) (reading (c ∷ (v ∷ bs)))
]

-- A row of bytes is one row of tokens, each a byte that is no escape or an escape with a count and a
-- value, behind which an escape that is cut off may follow. Both decoders give the pixels of the tokens in
-- their order, a run as often as its count says, cut at the length of the line; what is cut off
-- gives none.
pub decompress_spoke_lem :
    (bs : List ℕ) (doppler_lookup : ℕ → ℕ) (is_hd : Bool) (returns_per_line : ℕ)
    → (r : Reading bs) × (decompress_quantum_spoke bs doppler_lookup returns_per_line
        ≡ take returns_per_line (expand (quantum_pixels doppler_lookup) r.tokens))
      × (decompress_rd_spoke bs is_hd returns_per_line
          ≡ take returns_per_line (expand (rd_pixels is_hd) r.tokens))
unfolding decompress_quantum_spoke decompress_rd_spoke
decompress_spoke_lem bs lut is_hd n =
    let r = reading bs in
    let decoded = λ (pixels : ℕ → List ℕ).
      ap (λ t. take n (decompress_loop pixels t [])) r.whole
      ∙ ap (take n) (loop_lem pixels r.tokens r.rest [] r.valid r.ends) in
    (r, decoded (quantum_pixels lut), decoded (rd_pixels is_hd))
