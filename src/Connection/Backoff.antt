-- ===== src/Connection/Backoff.antt =====
-- The delay before the next attempt.
use mayara.Prelude.{
  ℕ, zero, suc, ◌+◌, ◌*◌, ◌^◌, ◌≤◌, ◌<◌, ◌≡◌, ◌≢◌, refl, ◌∙◌, ap, arith, min, length, List, [], ◌∷◌,
}
use mayara.Connection.{
  ConnectionManager, connecting, shutting_down, backoff_ms, Call, failed, to_disconnected,
  to_connecting, step, run, saturating_inc,
}
use native.Mathlib.Nat.{pow-suc}

pow_pos : (k : ℕ) → 1 ≤ 2 ^ k
pow_pos zero = omega arith
pow_pos (suc k) = omega (arith, pow_pos k, pow-suc 2 k)

-- Past five doublings the bound of 30 s is reached anyway.
capped : (k : ℕ) → min (1000 * 2 ^ min k 5) 30000 ≡ min (1000 * 2 ^ k) 30000
capped zero = refl
capped (suc zero) = refl
capped (suc (suc zero)) = refl
capped (suc (suc (suc zero))) = refl
capped (suc (suc (suc (suc zero)))) = refl
capped (suc (suc (suc (suc (suc k))))) =
    let five : min (suc (suc (suc (suc (suc k))))) 5 ≡ 5 = omega arith in
    rw five (
      omega (
        arith,
        pow_pos k,
        pow-suc 2 k,
        pow-suc 2 (suc k),
        pow-suc 2 (suc (suc k)),
        pow-suc 2 (suc (suc (suc k))),
        pow-suc 2 (suc (suc (suc (suc k)))),
      ))

-- The shift that is capped at 5 gives the true exponential backoff: 1 s doubled with each failure,
-- at most 30 s.
pub backoff_exponential :
    (c : ConnectionManager) → backoff_ms c ≡ min (1000 * 2 ^ c.failure_count) 30000
unfolding backoff_ms
backoff_exponential c = capped c.failure_count

-- One failed attempt, the wait, and the next attempt.
abbrev pub retry_round : ℕ → List (Call × ℕ)
retry_round t = (failed, t) ∷ (to_disconnected, t) ∷ (to_connecting, t) ∷ []

pub retry : ConnectionManager → ℕ → ConnectionManager
retry c t = run c (retry_round t)

pub retries : ConnectionManager → List ℕ → ConnectionManager
retries c [] = c
retries c (t ∷ ts) = retries (retry c t) ts

retry_lem :
    (c : ConnectionManager) (t : ℕ)
    → c.state ≢ shutting_down
    → ((retry c t).state ≡ connecting)
      × ((retry c t).failure_count ≡ saturating_inc c.failure_count)
unfolding retry run step
retry_lem c t h = ground arith

retries_lem :
    (c : ConnectionManager) (ts : List ℕ) (n : ℕ)
    → c.state ≢ shutting_down
    → c.failure_count ≡ n
    → n + length ts < 2 ^ 32
    → (retries c ts).failure_count ≡ n + length ts
unfolding retries
retries_lem c [] n h e fits = omega (arith, e)
retries_lem c (t ∷ ts) n h e fits =
    let (going, counted) = retry_lem c t h in
    let moved : (retry c t).state ≢ shutting_down = λ down. cc in
    let more : (retry c t).failure_count ≡ n + 1 = omega (arith, counted, e) in
    omega (arith, retries_lem (retry c t) ts (n + 1) moved more (omega arith))

-- From a manager that is not shutting down and has no failures counted, after k rounds (k < 2^32)
-- of a failed attempt, the wait and a new attempt, the delay is 1 s doubled k times, at most 30 s.
pub backoff-retries :
    (c : ConnectionManager) (ts : List ℕ)
    → c.state ≢ shutting_down
    → c.failure_count ≡ 0
    → length ts < 2 ^ 32
    → backoff_ms (retries c ts) ≡ min (1000 * 2 ^ length ts) 30000
backoff-retries c ts h e fits =
    let count : (retries c ts).failure_count ≡ length ts =
      retries_lem c ts 0 h e (omega arith) ∙ omega arith in
    backoff_exponential (retries c ts) ∙ ap (λ k. min (1000 * 2 ^ k) 30000) count
