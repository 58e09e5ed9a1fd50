-- ===== src/GuardZones/Peak.antt =====
-- The peak of a spoke within a range.
use mayara.Prelude.{
  ℕ, suc, ◌+◌, ◌≤◌, ◌<◌, ◌≡◌, ◌⊎◌, sym, ap, refl, inl, inr, List, [], ◌∷◌, some, arith, ltb, length,
  get_elem?, All, Bool-cases, ltb→lt,
}
use mathlib.Core.Path.{subst}
use mayara.GuardZones.Step.{peak_loop, window, peak_of}

-- A result of the loop from index `i`: the peak so far, or a sample of those that were passed.
abbrev Found : List ℕ → ℕ → ℕ → ℕ → ℕ × ℕ → Type 0
Found bs i p k r =
    (r ≡ (p, k)) ⊎ ((j : ℕ) × (j < length bs) × (get_elem? bs j ≡ some r.0) × (r.1 ≡ i + j))

-- the same of a list with another sample in front
later :
    (b : ℕ) (bs : List ℕ) (i p k : ℕ) (r : ℕ × ℕ)
    → ((j : ℕ) × (j < length bs) × (get_elem? bs j ≡ some r.0) × (r.1 ≡ i + 1 + j))
    → (j : ℕ) × (j < length (b ∷ bs)) × (get_elem? (b ∷ bs) j ≡ some r.0) × (r.1 ≡ i + j)
later b bs i p k r (j, l, g, e) = (suc j, omega arith, g, omega (arith, e))

step_new :
    (b : ℕ) (bs : List ℕ) (i : ℕ) (r : ℕ × ℕ)
    → Found bs (i + 1) b i r
    → (j : ℕ) × (j < length (b ∷ bs)) × (get_elem? (b ∷ bs) j ≡ some r.0) × (r.1 ≡ i + j)
step_new b bs i r (inl e) =
    let v : r.0 ≡ b = ap (λ (q : ℕ × ℕ). q.0) e in
    let k : r.1 ≡ i = ap (λ (q : ℕ × ℕ). q.1) e in
    (0, omega arith, ap some (sym v), omega (arith, k))
step_new b bs i r (inr found) = later b bs i b i r found

step_old :
    (b : ℕ) (bs : List ℕ) (i p k : ℕ) (r : ℕ × ℕ) → Found bs (i + 1) p k r → Found (b ∷ bs) i p k r
step_old b bs i p k r (inl e) = inl e
step_old b bs i p k r (inr found) = inr (later b bs i p k r found)

-- What holds of a result of the loop.
abbrev IsPeak : List ℕ → ℕ → ℕ → ℕ → ℕ × ℕ → Type 0
IsPeak bs i p k r = (p ≤ r.0) × All (λ b. b ≤ r.0) bs × Found bs i p k r

peak_loop_lem : (bs : List ℕ) (i p k : ℕ) → IsPeak bs i p k (peak_loop bs i p k)
unfolding peak_loop
peak_loop_lem [] i p k = (omega arith, tt, inl refl)
peak_loop_lem (b ∷ bs) i p k = elim (Bool-cases (ltb p b)) [
  | inl e ↦
      let (lower, upper, found) = peak_loop_lem bs (i + 1) b i in
      let q : peak_loop bs (i + 1) b i ≡ peak_loop (b ∷ bs) i p k = rw e refl in
      let l : p ≤ (peak_loop bs (i + 1) b i).0 = omega (arith, lower, ltb→lt p b e) in
      subst (IsPeak (b ∷ bs) i p k) q (l, (lower, upper), inr (step_new b bs i _ found))
  | inr e ↦
      let (lower, upper, found) = peak_loop_lem bs (i + 1) p k in
      let q : peak_loop bs (i + 1) p k ≡ peak_loop (b ∷ bs) i p k = rw e refl in
      let m : b ≤ p = ground arith in
      let l : b ≤ (peak_loop bs (i + 1) p k).0 = omega (arith, lower, m) in
      subst (IsPeak (b ∷ bs) i p k) q (lower, (l, upper), step_old b bs i p k _ found)
]

-- The peak of a spoke from one index up to another is at least every sample there; and it is 0 with index 0,
-- or the sample of its index, which lies from the first index on.
pub peak_of_lem :
    (spoke_data : List ℕ) (inner_idx outer_idx : ℕ)
    → (let peak = peak_of spoke_data inner_idx outer_idx in
        let samples = window spoke_data inner_idx outer_idx in
        All (λ b. b ≤ peak.0) samples
        × ((peak ≡ (0, 0))
            ⊎ ((j : ℕ) × (j < length samples)
                × (get_elem? samples j ≡ some peak.0)
                × (peak.1 ≡ inner_idx + j))))
unfolding peak_of
peak_of_lem spoke_data inner outer =
    let (lower, upper, found) = peak_loop_lem (window spoke_data inner outer) inner 0 0 in
    (upper, found)
