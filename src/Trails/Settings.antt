-- ===== src/Trails/Settings.antt =====
-- Stores whose trails keep to the settings: the trail of a point that comes in, and new settings.
use mayara.Prelude.{
  ℕ, ◌*◌, ◌<◌, ◌^◌, ◌≡◌, ◌∙◌, ap, refl, true, [], ◌∷◌, ◌++◌, Option, none, some, arith, ltb, ◌==◌,
  Bool-cases, Option-cases, inl, inr,
}
use mathlib.Core.Path.{subst}
use mayara.Trails.Stamps.{}
use mayara.Prelude.Dict.{Dict, lookup, map_values}
use mayara.Trails.{
  TrailPoint, TrailSettings, TargetTrail, TrailStore, new_trail, point_size, extend, prune_old,
  resize, update_settings, trail_or_new, clear_in, has_points, cutoff, prune_old_points,
}
use mayara.Trails.Capped.{
  IsCapped, AllCapped, shifted, trail_add_point_lem, insert-AllCapped, retain-AllCapped,
  map-AllCapped, lookup-AllCapped, length-truncate, length-prune_points,
}

-- Settings that allow a point, and room for whose points can be allocated.
abbrev pub Allows : TrailSettings → Type 0
Allows settings = (0 < settings.max_points) × (settings.max_points * point_size < 2 ^ 63)

-- The settings allow a point, and every trail keeps to them.
pub record IsValid (s : TrailStore) : Type 0 where
  pub room : 0 < s.settings.max_points
  pub fits : s.settings.max_points * point_size < 2 ^ 63
  pub capped : AllCapped s.settings.max_points s.trails

-- The trail that a point is put on.
abbrev pub the_trail : TrailSettings → Option TargetTrail → TargetTrail
the_trail settings none = record { points = []; max_points = settings.max_points }
the_trail settings (some t) = t

pub trail_or_new-the_trail :
    (settings : TrailSettings) (o : Option TargetTrail)
    → settings.max_points * point_size < 2 ^ 63
    → trail_or_new settings o ≡ some (the_trail settings o)
unfolding new_trail
trail_or_new-the_trail settings none h =
    let e : ltb (settings.max_points * point_size) (2 ^ 63) ≡ true = ground arith in rw e refl
trail_or_new-the_trail settings (some t) h = refl

pub the_trail-IsCapped :
    (id : ℕ) (s : TrailStore)
    → IsValid s
    → IsCapped s.settings.max_points (the_trail s.settings (lookup id s.trails))
the_trail-IsCapped id s h = elim (Option-cases (lookup id s.trails)) [
  | inl e ↦ rw e (refl, omega (arith, h.room))
  | inr (t, e) ↦ rw e (lookup-AllCapped s.settings.max_points id t s.trails h.capped e)
]

-- The point is put on the trail, which loses its oldest point where it is full.
pub extend_lem :
    (id : ℕ) (p : TrailPoint) (s : TrailStore)
    → IsValid s
    → let t = the_trail s.settings (lookup id s.trails) in
      extend p (trail_or_new s.settings (lookup id s.trails))
      ≡ some (record t { points = shifted t ++ (p ∷ []) })
extend_lem id p s h =
    let t = the_trail s.settings (lookup id s.trails) in
    let c = the_trail-IsCapped id s h in
    ap (extend p) (trail_or_new-the_trail s.settings (lookup id s.trails) h.fits)
    ∙ trail_add_point_lem t p (omega (arith, c.0, h.room))

pub clear_in-AllCapped :
    (max id : ℕ) (d : Dict TargetTrail) → AllCapped max d → AllCapped max (clear_in id d)
clear_in-AllCapped max id d h = elim (Option-cases (lookup id d)) [
  | inl e ↦ rw (e, clear_in) h
  | inr (t, e) ↦
      let c = lookup-AllCapped max id t d h e in
      rw (e, clear_in) (insert-AllCapped max id (record t { points = [] }) d (c.0, omega arith) h)
]

pub update_settings-IsValid :
    (settings : TrailSettings) (s : TrailStore)
    → Allows settings
    → IsValid s
    → IsValid (update_settings settings s)
unfolding update_settings
update_settings-IsValid settings s (r, f) h =
    elim (Bool-cases (settings.max_points == s.settings.max_points)) [
      | inl same ↦
          let e : s.settings.max_points ≡ settings.max_points = ground arith in
          record {
            room = r;
            fits = f;
            capped = rw same (subst (λ m. AllCapped m s.trails) e h.capped);
          }
      | inr other ↦ record {
        room = r;
        fits = f;
        capped = rw other (
            map-AllCapped s.settings.max_points settings.max_points (resize settings.max_points)
              s.trails (λ t c. (refl, length-truncate settings.max_points t.points)) h.capped);
      }
    ]

pub prune_old_points-IsValid :
    (now : ℕ) (s : TrailStore) → IsValid s → IsValid (prune_old_points now s)
unfolding prune_old_points
prune_old_points-IsValid now s h =
    let max = s.settings.max_points in
    let f = prune_old (cutoff s.settings now) in
    record {
      room = h.room;
      fits = h.fits;
      capped = retain-AllCapped max has_points (map_values f s.trails) (
          map-AllCapped max max f s.trails
            (λ t c. (c.0, omega (arith, c.1, length-prune_points (cutoff s.settings now) t.points)))
            h.capped);
    }
