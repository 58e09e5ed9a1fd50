-- ===== src/Ranges/Sorting.antt =====
-- The sort of `Ranges::new`.
use mayara.Prelude.{◌≡◌, inl, inr, true, false, List, [], ◌∷◌, arith, All, Bool-cases}
use mayara.Prelude.Int.{leb_ℤ, ℤ, ◌≤ℤ◌}
use mayara.Ranges.{Range, insert_range, sort_ranges}
use mathlib.Core.List.{Perm}
use mathlib.Core.List.Perm

-- No distance is less than one that stands before it.
abbrev pub IsSorted : List Range → Type 0
IsSorted [] = Unit {0}
IsSorted (r ∷ rs) = All (λ x. r.distance ≤ℤ x.distance) rs × IsSorted rs

pub leb_ℤ→le : (a b : ℤ) → leb_ℤ a b ≡ true → a ≤ℤ b
leb_ℤ→le a b h = ground arith

pub leb_ℤ→ge : (a b : ℤ) → leb_ℤ a b ≡ false → b ≤ℤ a
leb_ℤ→ge a b h = ground arith

All-insert :
    (P : Range → Type 0) (r : Range) (rs : List Range) → P r → All P rs → All P (insert_range r rs)
unfolding insert_range
All-insert P r [] h hs = (h, tt)
All-insert P r (x ∷ xs) h hs = elim (Bool-cases (leb_ℤ r.distance x.distance)) [
  | inl before ↦ rw before (h, hs)
  | inr behind ↦ rw behind (hs.0, All-insert P r xs h hs.1)
]

All-trans :
    (a b : ℤ) (rs : List Range)
    → a ≤ℤ b
    → All (λ x. b ≤ℤ x.distance) rs
    → All (λ x. a ≤ℤ x.distance) rs
All-trans a b [] h hs = tt
All-trans a b (x ∷ xs) h hs = (omega (arith, hs.0), All-trans a b xs h hs.1)

insert-IsSorted : (r : Range) (rs : List Range) → IsSorted rs → IsSorted (insert_range r rs)
unfolding insert_range
insert-IsSorted r [] h = (tt, tt)
insert-IsSorted r (x ∷ xs) h = elim (Bool-cases (leb_ℤ r.distance x.distance)) [
  | inl before ↦
      let le = leb_ℤ→le r.distance x.distance before in
      rw before ((le, All-trans r.distance x.distance xs le h.0), h)
  | inr behind ↦ rw behind (
    All-insert (λ y. x.distance ≤ℤ y.distance) r xs (leb_ℤ→ge r.distance x.distance behind) h.0,
    insert-IsSorted r xs h.1,
  )
]

pub sort_ranges-IsSorted : (rs : List Range) → IsSorted (sort_ranges rs)
unfolding sort_ranges
sort_ranges-IsSorted [] = tt
sort_ranges-IsSorted (r ∷ rs) = insert-IsSorted r (sort_ranges rs) (sort_ranges-IsSorted rs)

insert-perm : (r : Range) (rs : List Range) → Perm (insert_range r rs) (r ∷ rs)
unfolding insert_range
insert-perm r [] = Perm.refl (r ∷ [])
insert-perm r (x ∷ xs) = elim (Bool-cases (leb_ℤ r.distance x.distance)) [
  | inl before ↦ rw before (Perm.refl (r ∷ x ∷ xs))
  | inr behind ↦ rw behind (Perm.trans (Perm.cons x (insert-perm r xs)) (Perm.swap r x xs))
]

pub sort_ranges-perm : (rs : List Range) → Perm (sort_ranges rs) rs
unfolding sort_ranges
sort_ranges-perm [] = Perm.refl []
sort_ranges-perm (r ∷ rs) =
    Perm.trans (insert-perm r (sort_ranges rs)) (Perm.cons r (sort_ranges-perm rs))
