-- ===== src/Arpa/Contour/Trace.antt =====
-- The turns of the loop of `get_contour`, history.rs.
use mayara.Prelude.{
  ℕ, zero, suc, ◌+◌, ◌-◌, ◌%◌, ◌<◌, ◌≡◌, inl, inr, true, false, Bool-cases, none, some,
  Option-cases, arith,
}
use mayara.Prelude.Int.{int_laws}
use mayara.Arpa.Doppler.{DopplerState}
use mayara.Arpa.Polar.{Polar, direction, add}
use mayara.Arpa.History.{HistoryBuffer}
use mayara.Arpa.Contour.{pix_polar, turn}

-- the direction back
abbrev opposite : ℕ → ℕ
opposite j = (j + 2) % 4

there_and_back :
    (p : Polar) (j : ℕ)
    → j < 4
    → ((add (add p (direction j)) (direction (opposite j))).angle ≡ p.angle)
      × ((add (add p (direction j)) (direction (opposite j))).r ≡ p.r)
unfolding add
there_and_back p zero h = (omega int_laws, omega int_laws)
there_and_back p (suc zero) h = (omega int_laws, omega int_laws)
there_and_back p (suc (suc zero)) h = (omega int_laws, omega int_laws)
there_and_back p (suc (suc (suc zero))) h = (omega int_laws, omega int_laws)
there_and_back p (suc (suc (suc (suc j)))) h = absurd (omega arith)

module _ (b : HistoryBuffer) (d : DopplerState) where
  -- an echo beside the point
  pub record Beside (p : Polar) : Type 0 where
    pub side : ℕ
    pub below : side < 4
    pub echo : pix_polar b d (add p (direction side)) ≡ true

  pub Beside-back :
      (p : Polar) (j : ℕ) → j < 4 → pix_polar b d p ≡ true → Beside (add p (direction j))
  Beside-back p j h e =
      let (a, r) = there_and_back p j h in
      record { side = opposite j; below = omega arith; echo = rw (a, r) e }

  pub turn-some :
      (n i j : ℕ) (p : Polar)
      → i < 4
      → turn n i b d p ≡ some j
      → (j < 4) × (pix_polar b d (add p (direction j)) ≡ true)
  unfolding turn
  turn-some zero i j p h e = cc
  turn-some (suc n) i j p h e = elim (Bool-cases (pix_polar b d (add p (direction i)))) [
    | inl echo ↦ let same : i ≡ j = ground (arith, e, echo) in rw (← same) (h, echo)
    | inr quiet ↦ turn-some n ((i + 1) % 4) j p (omega arith) (rw quiet at e)
  ]

  turn-none :
      (n i k : ℕ) (p : Polar)
      → i < 4
      → turn n i b d p ≡ none
      → k < n
      → pix_polar b d (add p (direction ((i + k) % 4))) ≡ false
  unfolding turn
  turn-none zero i k p h e l = absurd (omega arith)
  turn-none (suc n) i zero p h e l =
      let here : (i + 0) % 4 ≡ i = omega arith in
      rw here (elim (Bool-cases (pix_polar b d (add p (direction i)))) [
        | inl echo ↦ absurd (ground (arith, e, echo))
        | inr quiet ↦ quiet
      ])
  turn-none (suc n) i (suc k) p h e l =
      let moved : (i + suc k) % 4 ≡ ((i + 1) % 4 + k) % 4 = omega arith in
      rw moved (elim (Bool-cases (pix_polar b d (add p (direction i)))) [
        | inl echo ↦ absurd (ground (arith, e, echo))
        | inr quiet ↦ turn-none n ((i + 1) % 4) k p (omega arith) (rw quiet at e) (omega arith)
      ])

  -- With an echo beside the point a turn of four finds one.
  pub turn_finds :
      (i : ℕ) (p : Polar)
      → i < 4
      → Beside p
      → (j : ℕ) × (turn 4 i b d p ≡ some j) × (j < 4) × (pix_polar b d (add p (direction j)) ≡ true)
  turn_finds i p h s = elim (Option-cases (turn 4 i b d p)) [
    | inr (j, found) ↦ let (below, echo) = turn-some 4 i j p h found in (j, found, below, echo)
    | inl none' ↦
        let at_side : (i + (s.side + 4 - i) % 4) % 4 ≡ s.side = omega (arith, s.below) in
        let quiet : pix_polar b d (add p (direction s.side)) ≡ false =
          rw (← at_side) (turn-none 4 i ((s.side + 4 - i) % 4) p h none' (omega arith)) in
        absurd (cc (quiet, s.echo))
  ]
