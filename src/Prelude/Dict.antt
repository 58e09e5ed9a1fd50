-- ===== src/Prelude/Dict.antt =====
-- A `HashMap` with numbers for keys, as an association list.
use Prim.Native.Nat.{ℕ}
use mathlib.Core.Path.{◌≡◌, refl, ◌∙◌}
use mathlib.Core.Bool.{Bool}
use mathlib.Core.List.{List, [], ◌∷◌}
use mathlib.Core.Option.{Option, none, some}
use native.Mathlib.Omega.{arith}
use mayara.Prelude.Tests.{◌==◌, if◌then◌else◌, Bool-cases}
use mathlib.Core.Logic.{inl, inr}

abbrev pub Dict {ℓ} : Type ℓ → Type ℓ
Dict V = List (ℕ × V)

module _ {ℓ} {V : Type ℓ} where
  -- `get`
  abbrev pub lookup : ℕ → Dict V → Option V
  lookup k [] = none
  lookup k ((j, v) ∷ d) = if k == j then some v else lookup k d

  abbrev pub insert : ℕ → V → Dict V → Dict V
  insert k v [] = (k, v) ∷ []
  insert k v ((j, w) ∷ d) = let rest = insert k v d in if k == j then (k, v) ∷ d else (j, w) ∷ rest

  -- `remove`
  abbrev pub erase : ℕ → Dict V → Dict V
  erase k [] = []
  erase k ((j, v) ∷ d) = let rest = erase k d in if k == j then rest else (j, v) ∷ rest

  -- `for v in values_mut()`
  abbrev pub map_values : (V → V) → Dict V → Dict V
  map_values f [] = []
  map_values f ((j, v) ∷ d) = (j, f v) ∷ map_values f d

  -- `retain`, by the value
  abbrev pub retain : (V → Bool) → Dict V → Dict V
  retain p [] = []
  retain p ((j, v) ∷ d) = let rest = retain p d in if p v then (j, v) ∷ rest else rest

  -- No key stands twice.
  abbrev pub Distinct : Dict V → Type ℓ
  Distinct [] = Unit
  Distinct ((k, v) ∷ d) = (lookup k d ≡ none) × Distinct d

  abbrev pub apply : (V → V) → Option V → Option V
  apply f none = none
  apply f (some v) = some (f v)

  abbrev pub keep : (V → Bool) → Option V → Option V
  keep p none = none
  keep p (some v) = if p v then some v else none

  pub lookup-insert :
      (j k : ℕ) (v : V) (d : Dict V)
      → lookup j (insert k v d) ≡ (if j == k then some v else lookup j d)
  lookup-insert j k v [] = refl
  lookup-insert j k v ((i, w) ∷ d) = ground (arith, lookup-insert j k v d)

  pub lookup-erase :
      (j k : ℕ) (d : Dict V) → lookup j (erase k d) ≡ (if j == k then none else lookup j d)
  lookup-erase j k [] = ground arith
  lookup-erase j k ((i, w) ∷ d) = ground (arith, lookup-erase j k d)

  pub lookup-map_values :
      (j : ℕ) (f : V → V) (d : Dict V) → lookup j (map_values f d) ≡ apply f (lookup j d)
  lookup-map_values j f [] = refl
  lookup-map_values j f ((i, w) ∷ d) = ground (arith, lookup-map_values j f d)

  pub lookup-retain :
      (j : ℕ) (p : V → Bool) (d : Dict V) → Distinct d → lookup j (retain p d) ≡ keep p (lookup j d)
  lookup-retain j p [] h = refl
  lookup-retain j p ((i, w) ∷ d) h = elim (Bool-cases (p w)) [
    | inl e ↦ ground (arith, e, lookup-retain j p d h.1)
    | inr e ↦ elim (Bool-cases (j == i)) [
      | inl f ↦
          let g : j ≡ i = ground arith in
          rw (e, f) (rw e (lookup-retain j p d h.1 ∙ (rw (g, h.0) refl)))
      | inr f ↦ rw (e, f) (lookup-retain j p d h.1)
    ]
  ]

  pub insert-Distinct : (k : ℕ) (v : V) (d : Dict V) → Distinct d → Distinct (insert k v d)
  insert-Distinct k v [] h = (refl, tt)
  insert-Distinct k v ((i, w) ∷ d) h = elim (Bool-cases (k == i)) [
    | inl e ↦ let g : k ≡ i = ground arith in rw e (rw g h.0, h.1)
    | inr e ↦ rw e (ground (arith, lookup-insert i k v d, h.0), insert-Distinct k v d h.1)
  ]

  pub erase-Distinct : (k : ℕ) (d : Dict V) → Distinct d → Distinct (erase k d)
  erase-Distinct k [] h = tt
  erase-Distinct k ((i, w) ∷ d) h = elim (Bool-cases (k == i)) [
    | inl e ↦ rw e (erase-Distinct k d h.1)
    | inr e ↦ rw e (ground (arith, lookup-erase i k d, h.0), erase-Distinct k d h.1)
  ]

  pub map_values-Distinct : (f : V → V) (d : Dict V) → Distinct d → Distinct (map_values f d)
  map_values-Distinct f [] h = tt
  map_values-Distinct f ((i, w) ∷ d) h =
      (ground (arith, lookup-map_values i f d, h.0), map_values-Distinct f d h.1)

  pub retain-Distinct : (p : V → Bool) (d : Dict V) → Distinct d → Distinct (retain p d)
  retain-Distinct p [] h = tt
  retain-Distinct p ((i, w) ∷ d) h = elim (Bool-cases (p w)) [
    | inl e ↦ rw e (ground (arith, lookup-retain i p d h.1, h.0), retain-Distinct p d h.1)
    | inr e ↦ rw e (retain-Distinct p d h.1)
  ]
