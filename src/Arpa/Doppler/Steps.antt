-- ===== src/Arpa/Doppler/Steps.antt =====
-- The steps between the Doppler states.
use mayara.Prelude.{ℕ, ◌<◌, ◌≡◌, ◌⊎◌, arith}
use mayara.Arpa.Doppler.{DopplerState, any, approaching, receding, any_doppler, transition}

-- A target becomes approaching (receding) only if more of its pixels approach than recede (recede
-- than approach) and more than `part_85` of all do; an approaching or receding one stays as it is
-- or loses its direction, never turning at once; and only the states any, any_doppler, approaching
-- and receding are ever left.
transition_lem :
    (part_85 part_80 : ℕ → ℕ) (s : DopplerState) (total a r : ℕ)
    → let s' = transition part_85 part_80 s total a r in
      (s' ≡ approaching → (s ≡ approaching) ⊎ (r < a) × (part_85 total < a))
      × (s' ≡ receding → (s ≡ receding) ⊎ (a < r) × (part_85 total < r))
      × (s ≡ approaching → (s' ≡ approaching) ⊎ (s' ≡ any))
      × (s ≡ receding → (s' ≡ receding) ⊎ (s' ≡ any))
      × ((s' ≡ s) ⊎ (s ≡ any) ⊎ (s ≡ any_doppler) ⊎ (s ≡ approaching) ⊎ (s ≡ receding))
unfolding transition
transition_lem part_85 part_80 s total a r = (
  (λ e. ground arith),
  (λ e. ground arith),
  (λ e. ground arith),
  (λ e. ground arith),
  ground arith,
)
