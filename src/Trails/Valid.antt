-- ===== src/Trails/Valid.antt =====
-- The trail store keeps to its settings whatever is called in whatever order, and does not panic.
use mayara.Prelude.{
  ℕ, ◌+◌, ◌*◌, ◌≤◌, ◌≡◌, refl, Bool, true, false, List, [], ◌∷◌, ◌++◌, Option, none, some, arith,
  length, Bool-cases, inl, inr, All,
}
use mayara.Trails.Stamps.{Stamped, Stamped-later, insert-Stamped, erase-Stamped, too_soon-Stamped}
use native.Mathlib.Nat.{suc-mul}
use mayara.Prelude.Dict.{Dict, lookup, insert}
use mayara.Trails.{
  TrailPoint, TrailSettings, TargetTrail, TrailStore, new, update_settings, too_soon, add_point,
  clear_trail, remove_trail, clear_all, prune_old_points, points_of, total_points, trail_count,
}
use mayara.Trails.Settings.{
  Allows, IsValid, the_trail, the_trail-IsCapped, extend_lem, clear_in-AllCapped,
  update_settings-IsValid, prune_old_points-IsValid,
}
use mayara.Trails.Capped.{
  AllCapped, shifted, trail_add_point-IsCapped, insert-AllCapped, erase-AllCapped,
}

-- A call of one of the operations that change the store.
pub data Call : Type 0 where
  adding : ℕ → TrailPoint → Call
  setting : TrailSettings → Call
  clearing removing : ℕ → Call
  clearing_all : Call
  pruning : ℕ → Call

-- Settings that allow a point and can be kept to.
abbrev pub IsCall : Call → Type 0
IsCall (setting settings) = Allows settings
IsCall _ = Unit

abbrev pub stored : Option (Bool × TrailStore) → Option TrailStore
stored none = none
stored (some (added, s)) = some s

abbrev pub then_run : (TrailStore → Option TrailStore) → Option TrailStore → Option TrailStore
then_run f none = none
then_run f (some s) = f s

-- The time behind a call: that of a point that comes in.
abbrev pub after : ℕ → Call → ℕ
after latest (adding id p) = p.timestamp
after latest _ = latest

-- The time of a point that comes in is not before `latest`.
abbrev pub Comes : ℕ → Call → Type 0
Comes latest (adding id p) = latest ≤ p.timestamp
Comes latest _ = Unit

-- The points come in order of time.
abbrev pub InOrder : ℕ → List Call → Type 0
InOrder latest [] = Unit
InOrder latest (c ∷ cs) = Comes latest c × InOrder (after latest c) cs

module _ (checks : Bool) where
  -- The store behind a call; none is a panic.
  abbrev pub step : Call → TrailStore → Option TrailStore
  step (adding id p) s = stored (add_point checks id p s)
  step (setting settings) s = some (update_settings settings s)
  step (clearing id) s = some (clear_trail id s)
  step (removing id) s = some (remove_trail id s)
  step clearing_all s = some (clear_all s)
  step (pruning now) s = some (prune_old_points now s)

  abbrev pub run : List Call → TrailStore → Option TrailStore
  run [] s = some s
  run (c ∷ cs) s = then_run (run cs) (step c s)

  -- A valid store, whose updates are from `latest` or before where overflows are checked.
  abbrev IsValidAt : ℕ → TrailStore → Type 0
  IsValidAt latest s = IsValid s × (checks ≡ true → Stamped latest s.last_update)

  -- A call comes back, with a store that keeps to its settings.
  abbrev Reaches : ℕ → Option TrailStore → Type 0
  Reaches latest r = (u : TrailStore) × (r ≡ some u) × IsValidAt latest u

  unchanged :
      (latest : ℕ) (p : TrailPoint) (s : TrailStore)
      → IsValidAt latest s
      → (checks ≡ true → latest ≤ p.timestamp)
      → IsValidAt p.timestamp s
  unchanged latest p s (h, a) le =
      (h, λ e. Stamped-later latest p.timestamp s.last_update (le e) (a e))

  with_point :
      (latest id : ℕ) (p : TrailPoint) (s : TrailStore)
      → IsValidAt latest s
      → (checks ≡ true → latest ≤ p.timestamp)
      → let t = the_trail s.settings (lookup id s.trails) in
        IsValidAt p.timestamp (record s {
          trails = insert id (record t { points = shifted t ++ (p ∷ []) }) s.trails;
          last_update = insert id p.timestamp s.last_update;
        })
  with_point latest id p s (h, a) le =
      let max = s.settings.max_points in
      let t = the_trail s.settings (lookup id s.trails) in
      let u = record t { points = shifted t ++ (p ∷ []) } in
      let ct = the_trail-IsCapped id s h in
      (
        record {
          room = h.room;
          fits = h.fits;
          capped =
              insert-AllCapped max id u s.trails (trail_add_point-IsCapped max t p h.room ct)
                h.capped;
        },
        (λ e.
            insert-Stamped p.timestamp id p.timestamp s.last_update (omega arith)
              (Stamped-later latest p.timestamp s.last_update (le e) (a e))),
      )

  by_limit :
      (latest id : ℕ) (p : TrailPoint) (s : TrailStore)
      → IsValidAt latest s
      → (checks ≡ true → latest ≤ p.timestamp)
      → s.settings.enabled ≡ true
      → (b : Bool) → too_soon checks s.settings p (lookup id s.last_update) ≡ some b
      → Reaches p.timestamp (stored (add_point checks id p s))
  unfolding add_point
  by_limit latest id p s v le on true soon = (s, rw (on, soon) refl, unchanged latest p s v le)
  by_limit latest id p s v le on false late =
      (_, rw (on, late, extend_lem id p s v.0) refl, with_point latest id p s v le)

  add_point-Reaches :
      (latest id : ℕ) (p : TrailPoint) (s : TrailStore)
      → IsValidAt latest s
      → (checks ≡ true → latest ≤ p.timestamp)
      → Reaches p.timestamp (stored (add_point checks id p s))
  unfolding add_point
  add_point-Reaches latest id p s v le = elim (Bool-cases s.settings.enabled) [
    | inr off ↦ (s, rw off refl, unchanged latest p s v le)
    | inl on ↦
        let (b, e) = too_soon-Stamped checks s.settings p latest id s.last_update v.1 le in
        by_limit latest id p s v le on b e
  ]

module _ (checks : Bool) where
  step-Reaches :
      (latest : ℕ) (c : Call) (s : TrailStore)
      → IsCall c
      → (checks ≡ true → Comes latest c)
      → IsValidAt checks latest s
      → Reaches checks (after latest c) (step checks c s)
  unfolding clear_trail remove_trail clear_all update_settings prune_old_points
  step-Reaches l (adding id p) s k o v = add_point-Reaches checks l id p s v o
  step-Reaches l (setting settings) s k o (h, a) =
      (update_settings settings s, refl, (update_settings-IsValid settings s k h, a))
  step-Reaches l (clearing id) s k o (h, a) = (
    clear_trail id s,
    refl,
    (
      record { room = h.room; fits = h.fits; capped = clear_in-AllCapped _ id s.trails h.capped },
      (λ e. erase-Stamped l id s.last_update (a e)),
    ),
  )
  step-Reaches l (removing id) s k o (h, a) = (
    remove_trail id s,
    refl,
    (
      record { room = h.room; fits = h.fits; capped = erase-AllCapped _ id s.trails h.capped },
      (λ e. erase-Stamped l id s.last_update (a e)),
    ),
  )
  step-Reaches l clearing_all s k o (h, a) =
      (clear_all s, refl, (record { room = h.room; fits = h.fits; capped = tt }, (λ e. tt)))
  step-Reaches l (pruning now) s k o (h, a) =
      (prune_old_points now s, refl, (prune_old_points-IsValid now s h, a))

  run-Reaches :
      (latest : ℕ) (cs : List Call) (s : TrailStore)
      → All IsCall cs
      → (checks ≡ true → InOrder latest cs)
      → IsValidAt checks latest s
      → (u : TrailStore) × (run checks cs s ≡ some u) × IsValid u
  run-Reaches l [] s k o v = (s, refl, v.0)
  run-Reaches l (c ∷ cs) s k o v =
      let (u, e, w) = step-Reaches l c s k.0 (λ q. (o q).0) v in
      let (x, f, y) = run-Reaches (after l c) cs u k.1 (λ q. (o q).1) w in (x, rw (e, f) refl, y)

points_of-AllCapped :
    (max : ℕ) (d : Dict TargetTrail) → AllCapped max d → points_of d ≤ length d * max
points_of-AllCapped max [] h = omega arith
points_of-AllCapped max ((id, t) ∷ d) h =
    let n : length ((id, t) ∷ d) * max ≡ length d * max + max = suc-mul (length d) max in
    omega (arith, h.0.1, points_of-AllCapped max d h.1, n)

-- From a new store any sequence of calls comes back without a panic if its settings, and all that it sets,
-- allow at least one point and at most as many as an allocation can hold, and, in a build with overflow
-- checks, if the points come in order of time. Behind it every trail has at most the points that the current
-- settings allow, and there are at most that many points for each trail in all.
pub run_lem :
    (checks : Bool) (settings : TrailSettings) (cs : List Call)
    → Allows settings
    → All IsCall cs
    → (checks ≡ true → InOrder 0 cs)
    → (s : TrailStore) × (run checks cs (new settings) ≡ some s)
      × AllCapped s.settings.max_points s.trails
      × (total_points s ≤ trail_count s * s.settings.max_points)
unfolding new total_points trail_count
run_lem checks settings cs (h, f) k o =
    let start : IsValid (new settings) = record { room = h; fits = f; capped = tt } in
    let (s, e, v) = run-Reaches checks 0 cs (new settings) k o (start, λ _. tt) in
    (s, e, v.capped, points_of-AllCapped s.settings.max_points s.trails v.capped)
