-- ===== src/Trails/Adding.antt =====
-- What adding a point does to each trail.
use mayara.Prelude.{
  ℕ, ◌+◌, ◌-◌, ◌≤◌, ◌<◌, ◌^◌, ◌%◌, ◌≡◌, ◌⊎◌, ◌∙◌, sym, ap, refl, Bool, true, false, ◌&&◌, List, [],
  ◌∷◌, ◌++◌, Option, none, some, arith, if◌then◌else◌, leb, ◌==◌, Bool-cases, inl, inr, length,
  drop, ltb,
}
use mayara.Prelude.Dict.{Dict, lookup, insert, lookup-insert}
use mayara.Trails.{
  TrailPoint, TrailSettings, TargetTrail, TrailStore, extend, too_soon, trail_or_new, add_point,
  get_trail, points_or_none,
}
use mayara.Trails.Capped.{shifted}
use mayara.Trails.Settings.{IsValid, the_trail, the_trail-IsCapped, extend_lem}

-- A point comes too soon behind the update of the same target before it.
abbrev pub IsTooSoon : TrailSettings → TrailPoint → Option ℕ → Type 0
IsTooSoon settings p none = ⊥
IsTooSoon settings p (some last) = p.timestamp < last + settings.min_interval_ms

-- Time has not gone back since the last update of a target; timestamps are of 64 bits.
abbrev pub Forward : TrailPoint → Option ℕ → Type 0
Forward p none = Unit
Forward p (some last) = (last ≤ p.timestamp) × (p.timestamp < 2 ^ 64)

-- Where time has not gone back the rate limit is the comparison that is meant, whatever the build.
too_soon_lem :
    (checks : Bool) (settings : TrailSettings) (p : TrailPoint) (last : Option ℕ)
    → Forward p last
    → (too_soon checks settings p last ≡ some true) × IsTooSoon settings p last
      ⊎ (too_soon checks settings p last ≡ some false) × (¬ IsTooSoon settings p last)
too_soon_lem checks settings p none f = inr (refl, λ h. h)
too_soon_lem checks settings p (some last) (f, g) =
    let ahead : ltb p.timestamp last ≡ false = ground arith in
    let none_back : (checks && ltb p.timestamp last) ≡ false = ground arith in
    let e : (p.timestamp + 2 ^ 64 - last) % 2 ^ 64 ≡ p.timestamp - last = omega arith in
    elim (Bool-cases (ltb (p.timestamp - last) settings.min_interval_ms)) [
      | inl soon ↦ inl (rw (none_back, e, soon) refl, ground arith)
      | inr late ↦ inr (rw (none_back, e, late) refl, λ h. ground arith)
    ]

-- The trail of a target with a point behind it, its oldest point dropped if the settings leave no room.
abbrev pub extended : TrailSettings → List TrailPoint → TrailPoint → List TrailPoint
extended settings points p =
    (if leb settings.max_points (length points) then drop 1 points else points) ++ (p ∷ [])

-- What adding a point does where it is not added, and where it is.
abbrev pub IsIgnored : Bool → ℕ → TrailPoint → TrailStore → Type 0
IsIgnored checks id p s =
    (add_point checks id p s ≡ some (false, s))
    × ((s.settings.enabled ≡ false) ⊎ IsTooSoon s.settings p (lookup id s.last_update))

pub record IsAdded (checks : Bool) (id : ℕ) (p : TrailPoint) (s : TrailStore) (other : ℕ)
    : Type 0 where
  pub store : TrailStore
  pub result : add_point checks id p s ≡ some (true, store)
  pub on : s.settings.enabled ≡ true
  pub in_time : ¬ IsTooSoon s.settings p (lookup id s.last_update)
  pub settings : store.settings ≡ s.settings
  pub stamp : lookup id store.last_update ≡ some p.timestamp
  pub trail : get_trail id store ≡ extended s.settings (get_trail id s) p
  pub others :
      get_trail other store ≡ (if other == id then get_trail id store else get_trail other s)

trail_points :
    (settings : TrailSettings) (o : Option TargetTrail)
    → (the_trail settings o).points ≡ points_or_none o
trail_points settings none = refl
trail_points settings (some t) = refl

get_trail-insert :
    (other id : ℕ) (t : TargetTrail) (stamps : Dict ℕ) (s : TrailStore)
    → get_trail other (record s { trails = insert id t s.trails; last_update = stamps })
      ≡ (if other == id then t.points else get_trail other s)
unfolding get_trail
get_trail-insert other id t stamps s = elim (Bool-cases (other == id)) [
  | inl e ↦ rw (lookup-insert other id t s.trails, e) refl
  | inr e ↦ rw (lookup-insert other id t s.trails, e) refl
]

added :
    (checks : Bool) (id : ℕ) (p : TrailPoint) (s : TrailStore) (other : ℕ)
    → IsValid s
    → s.settings.enabled ≡ true
    → too_soon checks s.settings p (lookup id s.last_update) ≡ some false
    → ¬ IsTooSoon s.settings p (lookup id s.last_update)
    → IsAdded checks id p s other
unfolding add_point get_trail
added checks id p s other h on late in_time =
    let t = the_trail s.settings (lookup id s.trails) in
    let (cap, size) = the_trail-IsCapped id s h in
    let u = record t { points = shifted t ++ (p ∷ []) } in
    let e : extend p (trail_or_new s.settings (lookup id s.trails)) ≡ some u =
      extend_lem id p s h in
    let stamps = insert id p.timestamp s.last_update in
    let self : (id == id) ≡ true = ground arith in
    let points : t.points ≡ get_trail id s = trail_points s.settings (lookup id s.trails) in
    let here = λ (k : ℕ). get_trail-insert k id u stamps s in
    let mine : get_trail id (record s { trails = insert id u s.trails; last_update = stamps })
        ≡ u.points =
      here id ∙ (rw self refl) in
    record {
      store = record s { trails = insert id u s.trails; last_update = stamps };
      result = rw (on, late, e) refl;
      on = on;
      in_time = in_time;
      settings = refl;
      stamp = lookup-insert id id p.timestamp s.last_update ∙ (rw self refl);
      trail = mine ∙ (λ i.
          (if leb (cap i) (length (points i)) then drop 1 (points i) else points i) ++ (p ∷ []));
      others = here other ∙ ap (λ l. if other == id then l else get_trail other s) (sym mine);
    }

-- On a store that keeps to its settings, which allow a point and no more than an allocation can hold, and where
-- time has not gone back, in a build with overflow checks or without: with trails off, or within the
-- minimal interval behind the target's last update, a point changes nothing. Otherwise it is the newest
-- point of its target's trail, which loses its oldest if it is full; the time is kept as the target's
-- update, and the trails of the other targets stay as they are.
pub add_point_lem :
    (checks : Bool) (id : ℕ) (p : TrailPoint) (s : TrailStore) (other : ℕ)
    → IsValid s
    → Forward p (lookup id s.last_update)
    → IsIgnored checks id p s ⊎ IsAdded checks id p s other
unfolding add_point
add_point_lem checks id p s other h f = elim (Bool-cases s.settings.enabled) [
  | inr off ↦ inl (rw off refl, inl off)
  | inl on ↦ elim (too_soon_lem checks s.settings p (lookup id s.last_update) f) [
    | inl (soon, is_soon) ↦ inl (rw (on, soon) refl, inr is_soon)
    | inr (late, is_late) ↦ inr (added checks id p s other h on late is_late)
  ]
]
