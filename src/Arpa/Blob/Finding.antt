-- ===== src/Arpa/Blob/Finding.antt =====
-- Searching for a blob: what is found, and what becomes of the buffer.
use mayara.Prelude.{
  ℕ, zero, suc, ◌+◌, ◌%◌, ◌<◌, ◌≤◌, ◌≡◌, ◌⊎◌, inl, inr, refl, sym, ap, ◌∙◌, Bool, true, false,
  Bool-cases, some, Option-cases, if◌then◌else◌, not, arith, ltb, leb,
}
use mayara.Prelude.Int.{ℤ, pos, negsuc, ◌-ℤ◌, int_laws}
use mayara.Arpa.Doppler.{DopplerState}
use mayara.Arpa.Polar.{Polar}
use mayara.Arpa.History.{
  HistoryPixel, HistoryBuffer, matches_doppler, pixel_at, spoke_len, pix, mod_spokes,
}
use mayara.Arpa.Contour.{Contour, open_side, start_contour}
use mayara.Arpa.Blob.{Walk, long, single, short, walk, multi_pix, erase, steps, slide}
use mayara.Arpa.Blob.Fading.{Fainter-matches, Faded, erase-Faded}

-- what `pix` sees at a radius that is in reach
in_reach : (b : HistoryBuffer) (r : ℕ) → Bool
in_reach b r = if leb (spoke_len b) r then false else not (ltb r 3)

pix-some :
    (b : HistoryBuffer) (d : DopplerState) (a : ℤ) (r : ℕ)
    → pix b d a (pos r) ≡ true
    → (in_reach b r ≡ true)
      × ((p : HistoryPixel) × (pixel_at b.spokes (mod_spokes b a) r ≡ some p)
          × (matches_doppler p d ≡ true))
unfolding pix in_reach
pix-some b d a r h = elim (Option-cases (pixel_at b.spokes (mod_spokes b a) r)) [
  | inl none' ↦ absurd (ground (arith, h, none'))
  | inr (p, e) ↦ (ground (arith, h), (p, e, ground (arith, h, e)))
]

some-pix :
    (b : HistoryBuffer) (d : DopplerState) (a : ℤ) (r : ℕ) (p : HistoryPixel)
    → in_reach b r ≡ true
    → pixel_at b.spokes (mod_spokes b a) r ≡ some p
    → matches_doppler p d ≡ true
    → pix b d a (pos r) ≡ true
unfolding pix in_reach
some-pix b d a r p near e m = ground (arith, near, e, m)

same_spoke :
    (b b' : HistoryBuffer) (a : ℤ)
    → b'.spokes_per_revolution ≡ b.spokes_per_revolution
    → mod_spokes b' a ≡ mod_spokes b a
unfolding mod_spokes
same_spoke b b' (pos a) e = rw e
same_spoke b b' (negsuc a) e = rw e

same_reach :
    (b b' : HistoryBuffer) (r : ℕ) → spoke_len b' ≡ spoke_len b → in_reach b' r ≡ in_reach b r
unfolding in_reach
same_reach b b' r e = rw e

Faded-pix :
    (b b' : HistoryBuffer) (d : DopplerState) (a r : ℤ)
    → Faded b b'
    → pix b' d a r ≡ true
    → pix b d a r ≡ true
unfolding pix
Faded-pix b b' d a (negsuc r) f h = ground (arith, h)
Faded-pix b b' d a (pos r) f h =
    let (near, (p', found, m)) = pix-some b' d a r h in
    let (p, old, fainter) =
      f.pixels (mod_spokes b a) r p' (rw (same_spoke b b' a f.revolution) at (found)) in
    some-pix b d a r p (sym (same_reach b b' r f.reach) ∙ near) old
      (Fainter-matches p p' d fainter m)

Walk-cases : (w : Walk) → (w ≡ long) ⊎ (w ≡ single) ⊎ ((c : Contour) × (w ≡ short c))
Walk-cases long = inl refl
Walk-cases single = inr (inl refl)
Walk-cases (short c) = inr (inr (c, refl))

module _ (b : HistoryBuffer) (d : DopplerState) (a r : ℤ) where
  abbrev Cases : Type 0
  Cases =
      (multi_pix b d a r ≡ (false, b))
      ⊎ (multi_pix b d a r ≡ (true, b)) × (pix b d a r ≡ true)
      ⊎ ((n : ℕ) × (x lo hi : ℤ) × (multi_pix b d a r ≡ (false, erase n x lo hi b)))

  abbrev start : Polar
  start = record { angle = a; r = r; time = 0 }

  from_walk : (i : ℕ) → pix b d a r ≡ true → open_side 4 0 b d start ≡ some i → Cases
  unfolding multi_pix
  from_walk i echo opened =
      elim (Walk-cases (walk 6 true b d start start ((i + 1) % 4) (start_contour start))) [
        | inl e ↦ inr (inl (rw (echo, opened, multi_pix, e), echo))
        | inr (inl e) ↦ inl (rw (echo, opened, multi_pix, e))
        | inr (inr (c, e)) ↦ inr (
            inr (
              steps c.min_angle c.max_angle,
              c.min_angle,
              c.min_r,
              c.max_r,
              rw (echo, opened, multi_pix, e),
            ))
      ]

  multi_pix_cases : Cases
  unfolding multi_pix
  multi_pix_cases = elim (Bool-cases (pix b d a r)) [
    | inr quiet ↦ inl (rw (quiet, multi_pix))
    | inl echo ↦ elim (Option-cases (open_side 4 0 b d start)) [
      | inl closed ↦ inl (rw (echo, closed, multi_pix))
      | inr (i, opened) ↦ from_walk i echo opened
    ]
  ]

-- A blob is accepted only at an echo, and then the buffer stays as it is; a blob that is not
-- accepted may be erased, which makes no pixel an echo that was none, for any Doppler state.
pub multi_pix_lem :
    (b : HistoryBuffer) (d : DopplerState) (a r : ℤ)
    → let (found, b') = multi_pix b d a r in
      (found ≡ true → (b' ≡ b) × (pix b d a r ≡ true))
      × ((d' : DopplerState) (a' r' : ℤ) → pix b' d' a' r' ≡ true → pix b d' a' r' ≡ true)
multi_pix_lem b d a r = elim (multi_pix_cases b d a r) [
  | inl e ↦ rw e ((λ h. cc), (λ d' a' r' h. h))
  | inr (inl (e, echo)) ↦ rw e ((λ h. (refl, echo)), (λ d' a' r' h. h))
  | inr (inr (n, x, lo, hi, e)) ↦ rw e (
    (λ h. cc),
    (λ d' a' r' h. Faded-pix b (erase n x lo hi b) d' a' r' (erase-Faded n x lo hi b) h),
  )
]

abbrev pub Slid : HistoryBuffer → DopplerState → ℕ → ℤ → ℤ → ℤ → Type 0
Slid b d k a r a' =
    (n : ℕ) × (n ≤ k)
    × (a' ≡ a -ℤ pos n)
    × ((n ≡ k) ⊎ (pix b d a' r ≡ false))
    × ((i : ℕ) → i < n → pix b d (a -ℤ pos i) r ≡ true)

pub slide_lem :
    (k : ℕ) (b : HistoryBuffer) (d : DopplerState) (a r : ℤ) → Slid b d k a r (slide k b d a r)
unfolding slide
slide_lem zero b d a r = (0, omega arith, omega int_laws, inl refl, λ i h. absurd (omega arith))
slide_lem (suc k) b d a r = elim (Bool-cases (pix b d a r)) [
  | inr quiet ↦ rw quiet (0, omega arith, omega int_laws, inr quiet, λ i h. absurd (omega arith))
  | inl echo ↦
      let (n, le, e, stop, echoes) = slide_lem k b d (a -ℤ pos 1) r in
      rw echo (
        suc n,
        omega arith,
        e ∙ omega int_laws,
        elim stop [ inl all ↦ inl (ap suc all) | inr quiet ↦ inr quiet ],
        all_echoes b d a r n echo echoes,
      )
]
  where
    all_echoes :
        (b : HistoryBuffer) (d : DopplerState) (a r : ℤ) (n : ℕ)
        → pix b d a r ≡ true
        → ((i : ℕ) → i < n → pix b d (a -ℤ pos 1 -ℤ pos i) r ≡ true)
        → (i : ℕ) → i < suc n
        → pix b d (a -ℤ pos i) r ≡ true
    all_echoes b d a r n echo rest zero h = let e : a -ℤ pos 0 ≡ a = omega int_laws in rw e echo
    all_echoes b d a r n echo rest (suc i) h =
        let e : a -ℤ pos (suc i) ≡ a -ℤ pos 1 -ℤ pos i = omega int_laws in
        rw e (rest i (omega arith))
