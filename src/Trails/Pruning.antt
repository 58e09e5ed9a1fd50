-- ===== src/Trails/Pruning.antt =====
-- What pruning leaves of each trail.
use mayara.Prelude.{
  ℕ, ◌≡◌, ◌≢◌, ◌⊎◌, ◌∙◌, sym, refl, ap, true, false, not, List, [], ◌∷◌, Option, none, some, arith,
  ◌==◌, length, Bool-cases, inl, inr,
}
use mayara.Prelude.Dict.{
  lookup, map_values, retain, apply, keep, Distinct, lookup-map_values, lookup-retain,
  map_values-Distinct,
}
use mayara.Trails.{
  TrailPoint, TargetTrail, TrailStore, prune_points, prune_old, has_points, cutoff,
  prune_old_points, get_trail, points_or_none,
}

no_points : (ps : List TrailPoint) → not (length ps == 0) ≡ false → ps ≡ []
no_points [] h = refl
no_points (p ∷ ps) h = ground (arith, h)

some_points : (ps : List TrailPoint) → not (length ps == 0) ≡ true → ps ≢ []
some_points [] h = λ e. cc
some_points (p ∷ ps) h = λ e. cc

keep_points : (o : Option TargetTrail) → points_or_none (keep has_points o) ≡ points_or_none o
keep_points none = refl
keep_points (some t) = elim (Bool-cases (has_points t)) [
  | inl e ↦ rw e refl
  | inr e ↦ rw e (sym (no_points t.points e))
]

keep-none :
    (o : Option TargetTrail)
    → (keep has_points o ≡ none) ⊎ (points_or_none (keep has_points o) ≢ [])
keep-none none = inl refl
keep-none (some t) = elim (Bool-cases (has_points t)) [
  | inl e ↦ inr (rw e (some_points t.points e))
  | inr e ↦ inl (rw e refl)
]

points-apply :
    (min : ℕ) (o : Option TargetTrail)
    → points_or_none (apply (prune_old min) o) ≡ prune_points min (points_or_none o)
unfolding prune_points
points-apply min none = refl
points-apply min (some t) = refl

-- Behind a pruning the trail of every target has its points of the last `duration_seconds` seconds, in their
-- order, and no target is left with an empty trail.
pub prune_old_points_lem :
    (now id : ℕ) (s : TrailStore)
    → Distinct s.trails
    → (get_trail id (prune_old_points now s)
        ≡ prune_points (cutoff s.settings now) (get_trail id s))
      × ((lookup id (prune_old_points now s).trails ≡ none)
          ⊎ (get_trail id (prune_old_points now s) ≢ []))
unfolding prune_old_points get_trail
prune_old_points_lem now id s h =
    let f = prune_old (cutoff s.settings now) in
    let o = apply f (lookup id s.trails) in
    let e : lookup id (retain has_points (map_values f s.trails)) ≡ keep has_points o =
      lookup-retain id has_points (map_values f s.trails) (map_values-Distinct f s.trails h)
      ∙ ap (keep has_points) (lookup-map_values id f s.trails) in
    (
      ap points_or_none e
          ∙ keep_points o
          ∙ points-apply (cutoff s.settings now) (lookup id s.trails),
      rw e (keep-none o),
    )
