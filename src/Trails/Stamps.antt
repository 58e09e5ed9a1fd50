-- ===== src/Trails/Stamps.antt =====
-- The times of the last updates, and the calls whose times do not go back.
use mayara.Prelude.{
  ℕ, ◌+◌, ◌-◌, ◌%◌, ◌^◌, ◌≤◌, ◌≡◌, refl, Bool, true, false, [], ◌∷◌, Option, none, some, arith, ltb,
  ◌==◌, Bool-cases, inl, inr, All,
}
use mayara.Prelude.Dict.{Dict, lookup, insert, erase}
use mayara.Trails.{TrailPoint, TrailSettings, too_soon}

-- Every update is from `latest` or before.
abbrev pub Stamped : ℕ → Dict ℕ → Type 0
Stamped latest d = All (λ (e : ℕ × ℕ). e.1 ≤ latest) d

pub Stamped-later : (l m : ℕ) (d : Dict ℕ) → l ≤ m → Stamped l d → Stamped m d
Stamped-later l m [] h a = tt
Stamped-later l m ((j, v) ∷ d) h (k, a) = (omega arith, Stamped-later l m d h a)

pub insert-Stamped : (l k v : ℕ) (d : Dict ℕ) → v ≤ l → Stamped l d → Stamped l (insert k v d)
insert-Stamped l k v [] h a = (h, tt)
insert-Stamped l k v ((j, w) ∷ d) h (b, a) = elim (Bool-cases (k == j)) [
  | inl e ↦ rw e (h, a)
  | inr e ↦ rw e (b, insert-Stamped l k v d h a)
]

pub erase-Stamped : (l k : ℕ) (d : Dict ℕ) → Stamped l d → Stamped l (erase k d)
erase-Stamped l k [] a = tt
erase-Stamped l k ((j, w) ∷ d) (b, a) = elim (Bool-cases (k == j)) [
  | inl e ↦ rw e (erase-Stamped l k d a)
  | inr e ↦ rw e (b, erase-Stamped l k d a)
]

lookup-Stamped : (l k v : ℕ) (d : Dict ℕ) → Stamped l d → lookup k d ≡ some v → v ≤ l
lookup-Stamped l k v [] a h = cc
lookup-Stamped l k v ((j, w) ∷ d) (b, a) h = elim (Bool-cases (k == j)) [
  | inl e ↦ let f : w ≡ v = ground (arith, e, h) in omega arith
  | inr e ↦ lookup-Stamped l k v d a (ground (arith, e, h))
]

-- The rate limit does not panic where the last update is not behind the point, or with no checks.
pub too_soon-some :
    (checks : Bool) (settings : TrailSettings) (p : TrailPoint) (last : Option ℕ)
    → ((v : ℕ) → checks ≡ true → last ≡ some v → v ≤ p.timestamp)
    → (b : Bool) × (too_soon checks settings p last ≡ some b)
too_soon-some checks settings p none h = (false, refl)
too_soon-some checks settings p (some v) h = elim (Bool-cases checks) [
  | inl e ↦
      let k : v ≤ p.timestamp = h v e refl in
      let f : ltb p.timestamp v ≡ false = ground arith in
      (ltb ((p.timestamp + 2 ^ 64 - v) % 2 ^ 64) settings.min_interval_ms, rw (e, f) refl)
  | inr e ↦ (ltb ((p.timestamp + 2 ^ 64 - v) % 2 ^ 64) settings.min_interval_ms, rw e refl)
]

pub too_soon-Stamped :
    (checks : Bool) (settings : TrailSettings) (p : TrailPoint) (l k : ℕ) (d : Dict ℕ)
    → (checks ≡ true → Stamped l d)
    → (checks ≡ true → l ≤ p.timestamp)
    → (b : Bool) × (too_soon checks settings p (lookup k d) ≡ some b)
too_soon-Stamped checks settings p l k d a h =
    too_soon-some checks settings p (lookup k d) (λ v e f.
      let m : v ≤ l = lookup-Stamped l k v d (a e) f in
      let n : l ≤ p.timestamp = h e in omega arith)
