-- ===== src/Arpa/Contour/Found.antt =====
-- `get_contour` on each of its branches, history.rs.
use mayara.Prelude.{
  ℕ, zero, suc, ◌+◌, ◌%◌, ◌≤◌, ◌<◌, ◌≡◌, ◌⊎◌, inl, inr, refl, true, false, Bool-cases, List, none,
  some, Option-cases, arith, length, All,
}
use mayara.Prelude.Int.{pos, ◌≤ℤ◌, ltb_ℤ, le→ltb_ℤ, ltb_ℤ→le}
use mayara.Arpa.Doppler.{DopplerState}
use mayara.Arpa.Polar.{Polar, direction, add}
use mayara.Arpa.History.{HistoryBuffer, mod_spokes}
use mayara.Arpa.Contour.{
  ContourError, ok, err, Contour, pix_polar, turn, same_place, follow_contour, open_side, too_far,
  get_contour, finish_contour, start_contour, broken_contour, range_too_high, range_too_low,
  no_echo_at_start, start_point_not_on_contour,
}
use mayara.Arpa.Contour.Trace.{Beside, turn_finds, turn-some}
use mayara.Arpa.Contour.Follow.{Trail, last_of, Inside, Followed, follow_lem}

All-at {ℓ κ} : {A : Type ℓ} (P : A → Type κ) {xs ys : List A} → xs ≡ ys → All P ys → All P xs
All-at P e h = rw e h

module _ (b : HistoryBuffer) (d : DopplerState) (p : Polar) where
  -- The point is an echo in the ring where contours are looked for, with an echo beside it and
  -- with none on some side.
  pub record OnEdge : Type 0 where
    pub low : pos 4 ≤ℤ p.r
    pub high : too_far b p.r ≡ false
    pub echo : pix_polar b d p ≡ true
    pub side : ℕ
    pub below : side < 4
    pub open_there : pix_polar b d (add p (direction side)) ≡ false
    pub beside : Beside b d p

  open_some :
      (n i j : ℕ)
      → open_side n i b d p ≡ some j
      → (j < i + n) × (pix_polar b d (add p (direction j)) ≡ false)
  unfolding open_side
  open_some zero i j e = cc
  open_some (suc n) i j e = elim (Bool-cases (pix_polar b d (add p (direction i)))) [
    | inr quiet ↦ let same : i ≡ j = ground (arith, e, quiet) in (omega arith, rw (← same) quiet)
    | inl echo ↦ let (h, q) = open_some n (i + 1) j (rw echo at (e)) in (omega arith, q)
  ]

  open_none :
      (n i k : ℕ)
      → open_side n i b d p ≡ none
      → k < n
      → pix_polar b d (add p (direction (i + k))) ≡ true
  unfolding open_side
  open_none zero i k e l = absurd (omega arith)
  open_none (suc n) i zero e l =
      let here : i + 0 ≡ i = omega arith in
      rw here (elim (Bool-cases (pix_polar b d (add p (direction i)))) [
        | inl echo ↦ echo
        | inr quiet ↦ absurd (ground (arith, e, quiet))
      ])
  open_none (suc n) i (suc k) e l =
      let moved : i + suc k ≡ i + 1 + k = omega arith in
      rw moved (elim (Bool-cases (pix_polar b d (add p (direction i)))) [
        | inl echo ↦ open_none n (i + 1) k (rw echo at (e)) (omega arith)
        | inr quiet ↦ absurd (ground (arith, e, quiet))
      ])

  -- What a contour from the point is: a trail of 1 to 2000 echoes that ends at the start or is
  -- 2000 long, within the bounds, whose angles are brought into a revolution.
  pub record IsTraced (out : Contour × Polar) : Type 0 where
    pub trail : Trail b d p out.0.points
    pub count : out.0.length ≡ length out.0.points
    pub least : 0 < out.0.length
    pub most : out.0.length ≤ 2000
    pub ends : (out.0.length ≡ 2000) ⊎ (same_place (last_of p out.0.points) p ≡ true)
    pub raw : Contour
    pub inside : All (Inside raw) out.0.points
    pub radii : (out.0.min_r ≡ raw.min_r) × (out.0.max_r ≡ raw.max_r)
    pub angles :
        (out.0.min_angle ≡ pos (mod_spokes b raw.min_angle))
        × (out.0.max_angle ≡ pos (mod_spokes b raw.max_angle))

  finish-IsTraced :
      (c : Contour) → Followed b d p p 2000 (start_contour p) c → IsTraced (finish_contour b c)
  unfolding finish_contour
  finish-IsTraced c f =
      let same : c.points ≡ f.added = f.points in
      record {
        trail = rw same f.trail;
        count = refl;
        least = rw same (f.least (omega arith));
        most = rw same f.most;
        ends = rw same f.ends;
        raw = c;
        inside = All-at (Inside c) same f.inside;
        radii = (refl, refl);
        angles = (refl, refl);
      }

  -- the guards passed
  passes :
      (i : ℕ) (c : Contour)
      → OnEdge
      → open_side 4 0 b d p ≡ some i
      → follow_contour 2000 b d p p ((i + 1) % 4) (start_contour p) ≡ ok c
      → get_contour b d p ≡ ok (finish_contour b c)
  unfolding get_contour
  passes i c o opened runs =
      let far : ltb_ℤ p.r (pos 4) ≡ false = le→ltb_ℤ p.r (pos 4) o.low in
      rw (o.high, far, o.echo, opened, get_contour, runs)

  -- The first turn fails.
  breaks :
      (n i : ℕ) (c : Contour)
      → turn 4 ((i + 3) % 4) b d p ≡ none
      → follow_contour (suc n) b d p p i c ≡ err broken_contour
  unfolding follow_contour
  breaks n i c stuck = rw (stuck, follow_contour)

  abbrev Outcome : Type 0
  Outcome =
      OnEdge × ((out : Contour × Polar) × (get_contour b d p ≡ ok out) × IsTraced out)
      ⊎ ¬ OnEdge × ((e : ContourError) × (get_contour b d p ≡ err e))

  found : (i : ℕ) → OnEdge → open_side 4 0 b d p ≡ some i → Outcome
  found i o opened =
      let (c, runs, f) = follow_lem b d p 2000 ((i + 1) % 4) p (start_contour p) o.beside o.echo in
      inl (o, (finish_contour b c, passes i c o opened runs, finish-IsTraced c f))

  at_open :
      (i : ℕ)
      → too_far b p.r ≡ false
      → ltb_ℤ p.r (pos 4) ≡ false
      → pix_polar b d p ≡ true
      → open_side 4 0 b d p ≡ some i
      → Outcome
  unfolding get_contour
  at_open i near high echo opened = elim (Option-cases (turn 4 (((i + 1) % 4 + 3) % 4) b d p)) [
    | inl stuck ↦ inr (
      (λ o.
          let (_, finds, _, _) = turn_finds b d (((i + 1) % 4 + 3) % 4) p (omega arith) o.beside in
          cc (stuck, finds)),
      (
        broken_contour,
        rw (
          near,
          high,
          echo,
          opened,
          get_contour,
          breaks 1999 ((i + 1) % 4) (start_contour p) stuck,
        ),
      ),
    )
    | inr (j, turned) ↦
        let (below, beside) = turn-some b d 4 (((i + 1) % 4 + 3) % 4) j p (omega arith) turned in
        let (side_below, open_there) = open_some 4 0 i opened in
        let o : OnEdge = record {
          low = ltb_ℤ→le p.r (pos 4) high;
          high = near;
          echo = echo;
          side = i;
          below = omega (arith, side_below);
          open_there = open_there;
          beside = record { side = j; below = below; echo = beside };
        } in
        found i o opened
  ]

  at_echo : too_far b p.r ≡ false → ltb_ℤ p.r (pos 4) ≡ false → pix_polar b d p ≡ true → Outcome
  unfolding get_contour
  at_echo near high echo = elim (Option-cases (open_side 4 0 b d p)) [
    | inl closed ↦ inr (
      (λ o.
          let at_side : 0 + o.side ≡ o.side = omega arith in
          let all_around : pix_polar b d (add p (direction o.side)) ≡ true =
            rw at_side at (open_none 4 0 o.side closed o.below) in
          cc (all_around, o.open_there)),
      (start_point_not_on_contour, rw (near, high, echo, closed, get_contour)),
    )
    | inr (i, opened) ↦ at_open i near high echo opened
  ]

  -- A contour is found exactly from an echo on the edge of a larger one: a point of 4 pixels from the
  -- centre at least, and not too far out, that is an echo, with an echo beside it and none on some side. It
  -- is a trail of 1 to 2000 echoes. From any other point, a single pixel among them, there is an error.
  pub get_contour_lem :
      OnEdge × ((out : Contour × Polar) × (get_contour b d p ≡ ok out) × IsTraced out)
      ⊎ ¬ OnEdge × ((e : ContourError) × (get_contour b d p ≡ err e))
  unfolding get_contour
  get_contour_lem = elim (Bool-cases (too_far b p.r)) [
    | inl far ↦ inr ((λ o. cc (far, o.high)), (range_too_high, rw (far, get_contour)))
    | inr near ↦ elim (Bool-cases (ltb_ℤ p.r (pos 4))) [
      | inl low ↦ inr (
        (λ o. cc (low, le→ltb_ℤ p.r (pos 4) o.low)),
        (range_too_low, rw (near, low, get_contour)),
      )
      | inr high ↦ elim (Bool-cases (pix_polar b d p)) [
        | inr quiet ↦
            inr ((λ o. cc (quiet, o.echo)), (no_echo_at_start, rw (near, high, quiet, get_contour)))
        | inl echo ↦ at_echo near high echo
      ]
    ]
  ]
