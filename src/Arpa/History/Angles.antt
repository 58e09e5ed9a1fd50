-- ===== src/Arpa/History/Angles.antt =====
-- `mod_spokes`: angles within a revolution.
use mayara.Prelude.{
  ℕ, suc, ◌+◌, ◌-◌, ◌%◌, ◌≤◌, ◌<◌, ◌≡◌, sym, ap, ◌∙◌, arith, inl, inr, leb, Bool-cases, leb→le,
}
use mayara.Prelude.Int.{ℤ, pos, negsuc, ◌+ℤ◌, int_laws}
use native.Mathlib.Nat.{
  mod-lt, mod-mod, mod-eq_of_lt, add-mod_right, mod_self, mod-eq-sub-mod, zero-mod,
}
use mayara.Arpa.History.{HistoryBuffer, mod_spokes}

pos_wrap : (a n : ℕ) → (a % n + n) % n ≡ a % n
pos_wrap a n = add-mod_right (a % n) n ∙ mod-mod a n

mod_spokes-lt :
    (b : HistoryBuffer) (angle : ℤ)
    → 0 < b.spokes_per_revolution
    → mod_spokes b angle < b.spokes_per_revolution
unfolding mod_spokes
mod_spokes-lt b (pos a) h = mod-lt (a % b.spokes_per_revolution + b.spokes_per_revolution) h
mod_spokes-lt b (negsuc a) h = mod-lt (b.spokes_per_revolution - suc a % b.spokes_per_revolution) h

mod_spokes-pos : (b : HistoryBuffer) (a : ℕ) → mod_spokes b (pos a) ≡ a % b.spokes_per_revolution
unfolding mod_spokes
mod_spokes-pos b a = pos_wrap a b.spokes_per_revolution

-- n - a and n - (a mod n) have the same remainder.
sub_mod : (a n : ℕ) → a ≤ n → (n - a) % n ≡ (n - a % n) % n
sub_mod a n h = elim (Bool-cases (leb n a)) [
  | inl all ↦
      let e : a ≡ n = omega (arith, leb→le n a all) in
      let zero' : n - n ≡ 0 = omega arith in
      let whole : n - 0 ≡ n = omega arith in
      rw (e, mod_self n, zero', whole, mod_self n) (zero-mod n)
  | inr less ↦ let below : a < n = ground (arith, less) in rw (mod-eq_of_lt below)
]

pos_sum : (a n : ℕ) → pos a +ℤ pos n ≡ pos (a + n)
pos_sum a n = omega int_laws

neg_within : (a n : ℕ) → suc a ≤ n → negsuc a +ℤ pos n ≡ pos (n - suc a)
neg_within a n h = omega int_laws

neg_past : (a n : ℕ) → n ≤ a → negsuc a +ℤ pos n ≡ negsuc (a - n)
neg_past a n h = omega int_laws

past_mod : (a n : ℕ) → n ≤ a → suc (a - n) % n ≡ suc a % n
past_mod a n h =
    let e : suc (a - n) ≡ suc a - n = omega arith in
    let le : n ≤ suc a = omega arith in rw e (sym (mod-eq-sub-mod le))

-- one revolution more
wrap :
    (b : HistoryBuffer) (angle : ℤ)
    → mod_spokes b (angle +ℤ pos b.spokes_per_revolution) ≡ mod_spokes b angle
unfolding mod_spokes
wrap b (pos a) =
    ap (mod_spokes b) (pos_sum a b.spokes_per_revolution)
    ∙ mod_spokes-pos b (a + b.spokes_per_revolution)
    ∙ add-mod_right a b.spokes_per_revolution
    ∙ sym (mod_spokes-pos b a)
wrap b (negsuc a) = elim (Bool-cases (leb (suc a) b.spokes_per_revolution)) [
  | inl within ↦
      let le = leb→le (suc a) b.spokes_per_revolution within in
      ap (mod_spokes b) (neg_within a b.spokes_per_revolution le)
      ∙ mod_spokes-pos b (b.spokes_per_revolution - suc a)
      ∙ sub_mod (suc a) b.spokes_per_revolution le
  | inr past ↦
      let le : b.spokes_per_revolution ≤ a = ground (arith, past) in
      ap (mod_spokes b) (neg_past a b.spokes_per_revolution le)
      ∙ ap (λ m. (b.spokes_per_revolution - m) % b.spokes_per_revolution)
          (past_mod a b.spokes_per_revolution le)
]

-- In a buffer of n > 0 spokes every angle has a spoke below n; an angle from 0 to n - 1 is its own
-- spoke, and a whole revolution more leads to the same one.
mod_spokes_lem :
    (b : HistoryBuffer) (angle : ℤ)
    → 0 < b.spokes_per_revolution
    → (mod_spokes b angle < b.spokes_per_revolution)
      × ((a : ℕ) → a < b.spokes_per_revolution → mod_spokes b (pos a) ≡ a)
      × (mod_spokes b (angle +ℤ pos b.spokes_per_revolution) ≡ mod_spokes b angle)
mod_spokes_lem b angle h =
    (mod_spokes-lt b angle h, (λ a l. mod_spokes-pos b a ∙ mod-eq_of_lt l), wrap b angle)
