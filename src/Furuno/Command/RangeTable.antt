-- ===== src/Furuno/Command/RangeTable.antt =====
-- The range table of the Furuno commands: the wire index of a distance, and the distance of the index.
use mayara.Prelude.{
  ℕ, ◌≤◌, ◌≡◌, ◌⊎◌, inl, inr, refl, List, [], ◌∷◌, none, some, arith, Bool-cases, Option-cases,
}
use mathlib.Core.Path.{subst}
use mayara.Prelude.Int.{ℤ, pos, ◌≤ℤ◌, eq_ℤ, leb_ℤ, eq_ℤ-sound}
use mayara.Furuno.Command.{
  range_table, meters_of, range_index_to_meters, exact_index, next_index, or_else,
  meters_to_range_index,
}

-- a property of every entry of a table
abbrev AllOf : (ℤ → ℤ → Type 0) → List (ℤ × ℤ) → Type 0
AllOf P [] = Unit
AllOf P ((i, d) ∷ table) = P i d × AllOf P table

-- the distances ascend from `lo` on
abbrev Ascends : ℤ → List (ℤ × ℤ) → Type 0
Ascends lo [] = Unit
Ascends lo ((i, d) ∷ table) = (lo ≤ℤ d) × Ascends d table

Ascends-lower : (lo d : ℤ) (table : List (ℤ × ℤ)) → lo ≤ℤ d → Ascends d table → Ascends lo table
Ascends-lower lo d [] h a = tt
Ascends-lower lo d ((i, e) ∷ table) h (k, a) = (omega arith, a)

AllOf-Ascends :
    (m lo : ℤ) (table : List (ℤ × ℤ))
    → Ascends lo table
    → AllOf (λ (i e : ℤ). m ≤ℤ e → lo ≤ℤ e) table
AllOf-Ascends m lo [] a = tt
AllOf-Ascends m lo ((i, d) ∷ table) (h, a) =
    ((λ _. h), AllOf-Ascends m lo table (Ascends-lower lo d table h a))

-- What `meters_of` gives has the property of every entry.
meters_of-AllOf :
    (P : ℤ → ℤ → Type 0) (i d : ℤ) (table : List (ℤ × ℤ))
    → AllOf P table
    → meters_of i table ≡ some d
    → (j : ℤ) × P j d
meters_of-AllOf P i d [] a h = cc
meters_of-AllOf P i d ((j, e) ∷ table) (p, a) h = elim (Bool-cases (eq_ℤ j i)) [
  | inl here ↦ let q : e ≡ d = ground (arith, here, h) in (j, subst (P j) q p)
  | inr later ↦ meters_of-AllOf P i d table a (ground (arith, later, h))
]

exact_index_lem :
    (P : ℤ → ℤ → Type 0) (m i : ℤ) (table : List (ℤ × ℤ))
    → AllOf P table
    → exact_index m table ≡ some i
    → P i m
exact_index_lem P m i [] a h = cc
exact_index_lem P m i ((j, e) ∷ table) (p, a) h = elim (Bool-cases (eq_ℤ e m)) [
  | inl here ↦
      let q : j ≡ i = ground (arith, here, h) in
      subst (λ x. P x m) q (subst (P j) (eq_ℤ-sound e m here) p)
  | inr later ↦ exact_index_lem P m i table a (ground (arith, later, h))
]

-- the entry of `next_index`: it is not less than `m`, and no other that is not is less than it
abbrev Next : (ℤ → ℤ → Type 0) → ℤ → List (ℤ × ℤ) → Type 0
Next P m table =
    (i : ℤ) × ((d : ℤ) × (next_index m table ≡ some i)
      × P i d
      × (m ≤ℤ d)
      × AllOf (λ (j e : ℤ). m ≤ℤ e → d ≤ℤ e) table)

abbrev Beyond : ℤ → List (ℤ × ℤ) → Type 0
Beyond m table = (next_index m table ≡ none) × AllOf (λ (j e : ℤ). ¬ (m ≤ℤ e)) table

next_index_lem :
    (P : ℤ → ℤ → Type 0) (m lo : ℤ) (table : List (ℤ × ℤ))
    → Ascends lo table
    → AllOf P table
    → Next P m table ⊎ Beyond m table
next_index_lem P m lo [] s a = inr (refl, tt)
next_index_lem P m lo ((j, e) ∷ table) (h, s) (p, a) = elim (Bool-cases (leb_ℤ m e)) [
  | inl fits ↦
      let le : m ≤ℤ e = ground (arith, fits) in
      inl (j, (e, rw fits refl, p, le, ((λ _. omega arith), AllOf-Ascends m e table s)))
  | inr less ↦
      let lt : ¬ (m ≤ℤ e) = ground (arith, less) in
      elim (next_index_lem P m e table s a) [
        | inl (i, (d, n, q, le, all)) ↦ inl (i, (d, rw less n, q, le, ((λ k. absurd (lt k)), all)))
        | inr (n, all) ↦ inr (rw less n, (lt, all))
      ]
]

-- The wire index of an entry stands for the distance of the entry.
abbrev Faithful : ℤ → ℤ → Type 0
Faithful i d = range_index_to_meters i ≡ some d

range_table-Faithful : AllOf Faithful range_table
unfolding range_index_to_meters
range_table-Faithful = (
  refl,
  (
    refl,
    (
      refl,
      (
        refl,
        (
          refl,
          (
            refl,
            (
              refl,
              (
                refl,
                (refl, (refl, (refl, (refl, (refl, (refl, (refl, (refl, (refl, (refl, tt)))))))))),
              ),
            ),
          ),
        ),
      ),
    ),
  ),
)

range_table-Ascends : Ascends (pos 0) range_table
range_table-Ascends = (
  omega arith,
  (
    omega arith,
    (
      omega arith,
      (
        omega arith,
        (
          omega arith,
          (
            omega arith,
            (
              omega arith,
              (
                omega arith,
                (
                  omega arith,
                  (
                    omega arith,
                    (
                      omega arith,
                      (
                        omega arith,
                        (
                          omega arith,
                          (
                            omega arith,
                            (omega arith, (omega arith, (omega arith, (omega arith, tt)))),
                          ),
                        ),
                      ),
                    ),
                  ),
                ),
              ),
            ),
          ),
        ),
      ),
    ),
  ),
)

-- `d` is the least distance of the table that is not less than `m`, or the greatest where all are less.
abbrev pub IsRangeFor : ℤ → ℤ → Type 0
IsRangeFor m d =
    (m ≤ℤ d) × ((i e : ℤ) → range_index_to_meters i ≡ some e → m ≤ℤ e → d ≤ℤ e)
    ⊎ (d ≡ pos 88896) × ((i e : ℤ) → range_index_to_meters i ≡ some e → ¬ (m ≤ℤ e))

least_of :
    (m d : ℤ)
    → AllOf (λ (j e : ℤ). m ≤ℤ e → d ≤ℤ e) range_table
    → (i e : ℤ) → range_index_to_meters i ≡ some e
    → m ≤ℤ e
    → d ≤ℤ e
unfolding range_index_to_meters
least_of m d all i e h = (meters_of-AllOf (λ (j e : ℤ). m ≤ℤ e → d ≤ℤ e) i e range_table all h).1

none_fits :
    (m : ℤ)
    → AllOf (λ (j e : ℤ). ¬ (m ≤ℤ e)) range_table
    → (i e : ℤ) → range_index_to_meters i ≡ some e
    → ¬ (m ≤ℤ e)
unfolding range_index_to_meters
none_fits m all i e h = (meters_of-AllOf (λ (j e : ℤ). ¬ (m ≤ℤ e)) i e range_table all h).1

next_lem :
    (m : ℤ)
    → (d : ℤ) × (range_index_to_meters (or_else (next_index m range_table) (pos 15)) ≡ some d)
      × IsRangeFor m d
unfolding range_index_to_meters
next_lem m =
    elim (next_index_lem Faithful m (pos 0) range_table range_table-Ascends range_table-Faithful) [
      | inl (i, (d, n, p, le, all)) ↦ (d, rw n p, inl (le, least_of m d all))
      | inr (n, all) ↦ (pos 88896, rw n refl, inr (refl, λ i e h. none_fits m all i e h))
    ]

-- `meters_to_range_index` of any number of metres gives an index of the table, and the distance of that
-- index is the least of the table that is not less than the metres, or the greatest, 88896, where all of
-- them are less.
pub meters_to_range_index_lem :
    (m : ℤ) → (d : ℤ) × (range_index_to_meters (meters_to_range_index m) ≡ some d) × IsRangeFor m d
unfolding meters_to_range_index
meters_to_range_index_lem m = elim (Option-cases (exact_index m range_table)) [
  | inl missing ↦ rw missing (next_lem m)
  | inr (i, hit) ↦ (
    m,
    rw hit (exact_index_lem Faithful m i range_table range_table-Faithful hit),
    inl (omega arith, λ j e h le. le),
  )
]

-- The greatest index is 21.
abbrev Bounded : ℤ → ℤ → Type 0
Bounded i d = (n : ℕ) × (i ≡ pos n) × (n ≤ 21)

range_table-Bounded : AllOf Bounded range_table
range_table-Bounded = (
  (21, refl, omega arith),
  (
    (0, refl, omega arith),
    (
      (1, refl, omega arith),
      (
        (2, refl, omega arith),
        (
          (3, refl, omega arith),
          (
            (4, refl, omega arith),
            (
              (5, refl, omega arith),
              (
                (6, refl, omega arith),
                (
                  (7, refl, omega arith),
                  (
                    (8, refl, omega arith),
                    (
                      (9, refl, omega arith),
                      (
                        (10, refl, omega arith),
                        (
                          (11, refl, omega arith),
                          (
                            (12, refl, omega arith),
                            (
                              (13, refl, omega arith),
                              (
                                (14, refl, omega arith),
                                ((19, refl, omega arith), ((15, refl, omega arith), tt)),
                              ),
                            ),
                          ),
                        ),
                      ),
                    ),
                  ),
                ),
              ),
            ),
          ),
        ),
      ),
    ),
  ),
)

next-Bounded : (m : ℤ) → Bounded (or_else (next_index m range_table) (pos 15)) m
next-Bounded m =
    elim (next_index_lem Bounded m (pos 0) range_table range_table-Ascends range_table-Bounded) [
      | inl (i, (d, n, p, le, all)) ↦ rw n p
      | inr (n, all) ↦ rw n (15, refl, omega arith)
    ]

pub index_bound : (m : ℤ) → (n : ℕ) × (meters_to_range_index m ≡ pos n) × (n ≤ 21)
unfolding meters_to_range_index
index_bound m = elim (Option-cases (exact_index m range_table)) [
  | inl missing ↦ rw missing (next-Bounded m)
  | inr (i, hit) ↦ rw hit (exact_index_lem Bounded m i range_table range_table-Bounded hit)
]
