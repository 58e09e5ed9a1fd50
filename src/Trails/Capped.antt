-- ===== src/Trails/Capped.antt =====
-- Trails never hold more points than the settings allow.
use mayara.Prelude.{
  ℕ, ◌+◌, ◌≤◌, ◌<◌, ◌≡◌, refl, Bool, false, List, [], ◌∷◌, ◌++◌, some, arith, drop, length-drop,
  length, length-append, if◌then◌else◌, leb, ◌==◌, Bool-cases, inl, inr, All,
}
use mathlib.Core.Path.{subst}
use mayara.Prelude.Dict.{Dict, lookup, insert, erase, map_values, retain}
use mayara.Trails.{
  TrailPoint, TargetTrail, remove_first, push, trail_add_point, prune_points, truncate,
}

-- A trail with room for `max` points, and no more of them.
abbrev pub IsCapped : ℕ → TargetTrail → Type 0
IsCapped max t = (t.max_points ≡ max) × (length t.points ≤ max)

abbrev pub AllCapped : ℕ → Dict TargetTrail → Type 0
AllCapped max d = All (λ (e : ℕ × TargetTrail). IsCapped max e.1) d

shift :
    (ps : List TrailPoint) (max : ℕ) (p : TrailPoint)
    → 0 < max
    → push
        (record { points = ps; max_points = max })
        p
        (if leb max (length ps) then remove_first ps else some ps)
      ≡ some (record {
        points = (if leb max (length ps) then drop 1 ps else ps) ++ (p ∷ []);
        max_points = max;
      })
shift [] max p h = let e : leb max 0 ≡ false = ground arith in rw e refl
shift (q ∷ ps) max p h = elim (Bool-cases (leb max (length (q ∷ ps)))) [
  | inl e ↦ rw e refl
  | inr e ↦ rw e refl
]

-- The points of a trail without the oldest, where it is full.
abbrev pub shifted : TargetTrail → List TrailPoint
shifted t = if leb t.max_points (length t.points) then drop 1 t.points else t.points

pub trail_add_point_lem :
    (t : TargetTrail) (p : TrailPoint)
    → 0 < t.max_points
    → trail_add_point t p ≡ some (record t { points = shifted t ++ (p ∷ []) })
unfolding trail_add_point
trail_add_point_lem t p h = shift t.points t.max_points p h

shifted_room :
    (t : TargetTrail)
    → 0 < t.max_points
    → length t.points ≤ t.max_points
    → length (shifted t) + 1 ≤ t.max_points
shifted_room t h l = elim (Bool-cases (leb t.max_points (length t.points))) [
  | inl e ↦ rw e (omega (arith, length-drop 1 t.points))
  | inr e ↦ rw e (ground arith)
]

pub trail_add_point-IsCapped :
    (max : ℕ) (t : TargetTrail) (p : TrailPoint)
    → 0 < max
    → IsCapped max t
    → IsCapped max (record t { points = shifted t ++ (p ∷ []) })
trail_add_point-IsCapped max t p h (k, l) = (
  k,
  omega (
    arith,
    length-append (shifted t) (p ∷ []),
    k,
    shifted_room t (omega (arith, k)) (omega (arith, k)),
  ),
)

pub insert-AllCapped :
    (max k : ℕ) (t : TargetTrail) (d : Dict TargetTrail)
    → IsCapped max t
    → AllCapped max d
    → AllCapped max (insert k t d)
insert-AllCapped max k t [] h a = (h, tt)
insert-AllCapped max k t ((j, u) ∷ d) h a = elim (Bool-cases (k == j)) [
  | inl e ↦ rw e (h, a.1)
  | inr e ↦ rw e (a.0, insert-AllCapped max k t d h a.1)
]

pub erase-AllCapped :
    (max k : ℕ) (d : Dict TargetTrail) → AllCapped max d → AllCapped max (erase k d)
erase-AllCapped max k [] a = tt
erase-AllCapped max k ((j, u) ∷ d) a = elim (Bool-cases (k == j)) [
  | inl e ↦ rw e (erase-AllCapped max k d a.1)
  | inr e ↦ rw e (a.0, erase-AllCapped max k d a.1)
]

pub retain-AllCapped :
    (max : ℕ) (p : TargetTrail → Bool) (d : Dict TargetTrail)
    → AllCapped max d
    → AllCapped max (retain p d)
retain-AllCapped max p [] a = tt
retain-AllCapped max p ((j, u) ∷ d) a = elim (Bool-cases (p u)) [
  | inl e ↦ rw e (a.0, retain-AllCapped max p d a.1)
  | inr e ↦ rw e (retain-AllCapped max p d a.1)
]

pub map-AllCapped :
    (max max' : ℕ) (f : TargetTrail → TargetTrail) (d : Dict TargetTrail)
    → ((t : TargetTrail) → IsCapped max t → IsCapped max' (f t))
    → AllCapped max d
    → AllCapped max' (map_values f d)
map-AllCapped max max' f [] h a = tt
map-AllCapped max max' f ((j, u) ∷ d) h a = (h u a.0, map-AllCapped max max' f d h a.1)

pub lookup-AllCapped :
    (max k : ℕ) (t : TargetTrail) (d : Dict TargetTrail)
    → AllCapped max d
    → lookup k d ≡ some t
    → IsCapped max t
lookup-AllCapped max k t [] a h = cc
lookup-AllCapped max k t ((j, u) ∷ d) a h = elim (Bool-cases (k == j)) [
  | inl e ↦ let f : u ≡ t = ground (arith, e, h) in subst (IsCapped max) f a.0
  | inr e ↦ lookup-AllCapped max k t d a.1 (ground (arith, e, h))
]

pub length-truncate : (max : ℕ) (ps : List TrailPoint) → length (truncate max ps) ≤ max
unfolding truncate
length-truncate max [] = omega arith
length-truncate max (p ∷ ps) = ground (arith, length-truncate max ps)

pub length-prune_points :
    (stamp : ℕ) (ps : List TrailPoint) → length (prune_points stamp ps) ≤ length ps
unfolding prune_points
length-prune_points stamp [] = omega arith
length-prune_points stamp (p ∷ ps) = ground (arith, length-prune_points stamp ps)
