-- ===== src/Arpa/Contour/Follow.antt =====
-- What `get_contour` finds, and where it finds nothing.
use mayara.Prelude.{
  ℕ, zero, suc, ◌+◌, ◌%◌, ◌≤◌, ◌<◌, ◌≡◌, ◌⊎◌, inl, inr, refl, sym, ap, ◌∙◌, true, false, Bool-cases,
  List, [], ◌∷◌, ◌++◌, some, arith, length, All,
}
use mathlib.Core.List.{append-nil, append_assoc}
use mayara.Prelude.Int.{◌≤ℤ◌}
use mayara.Arpa.Doppler.{DopplerState}
use mayara.Arpa.Polar.{Polar, direction, add}
use mayara.Arpa.History.{HistoryBuffer}
use mayara.Arpa.Contour.{ok, Contour, pix_polar, turn, add_point, same_place, follow_contour}
use mayara.Arpa.Contour.Trace.{Beside, Beside-back, turn_finds}

-- A point is within the bounds.
pub record Inside (c : Contour) (p : Polar) : Type 0 where
  pub angle_low : c.min_angle ≤ℤ p.angle
  pub angle_high : p.angle ≤ℤ c.max_angle
  pub r_low : c.min_r ≤ℤ p.r
  pub r_high : p.r ≤ℤ c.max_r

-- The bounds have not become narrower.
pub record Wider (c c' : Contour) : Type 0 where
  pub angle_low : c'.min_angle ≤ℤ c.min_angle
  pub angle_high : c.max_angle ≤ℤ c'.max_angle
  pub r_low : c'.min_r ≤ℤ c.min_r
  pub r_high : c.max_r ≤ℤ c'.max_r

Wider-refl : (c : Contour) → Wider c c
Wider-refl c = omega arith

Wider-trans : {a b c : Contour} → Wider a b → Wider b c → Wider a c
Wider-trans h k = omega arith

Wider-Inside : {c c' : Contour} {p : Polar} → Wider c c' → Inside c p → Inside c' p
Wider-Inside h k = omega arith

add_point-Inside : (c : Contour) (p : Polar) → Inside (add_point c p) p
unfolding add_point
add_point-Inside c p = ground arith

add_point-Wider : (c : Contour) (p : Polar) → Wider c (add_point c p)
unfolding add_point
add_point-Wider c p = ground arith

module _ (b : HistoryBuffer) (d : DopplerState) where
  -- The points lead from echo to echo, each a step in one of the four directions.
  abbrev pub Trail : Polar → List Polar → Type 0
  Trail p [] = Unit {0}
  Trail p (q ∷ qs) =
      ((j : ℕ) × (j < 4) × (q ≡ add p (direction j))) × (pix_polar b d q ≡ true) × Trail q qs

abbrev pub last_of : Polar → List Polar → Polar
last_of p [] = p
last_of p (q ∷ qs) = last_of q qs

-- What the loop has added in `n` rounds at most: it ends with the rounds or at the start.
pub record Followed (b : HistoryBuffer) (d : DopplerState) (start current : Polar) (n : ℕ)
    (c c' : Contour) : Type 0 where
  pub added : List Polar
  pub points : c'.points ≡ c.points ++ added
  pub trail : Trail b d current added
  pub inside : All (Inside c') added
  pub wider : Wider c c'
  pub most : length added ≤ n
  pub least : 0 < n → 0 < length added
  pub ends : (length added ≡ n) ⊎ (same_place (last_of current added) start ≡ true)

-- one round: the point next to it, and what the rest of the loop adds
module _ (b : HistoryBuffer) (d : DopplerState) (start p : Polar) (n index j : ℕ)
    (c : Contour) where
  abbrev next : Polar
  next = add p (direction j)

  stops_home :
      turn 4 ((index + 3) % 4) b d p ≡ some j
      → same_place next start ≡ true
      → follow_contour (suc n) b d start p index c ≡ ok (add_point c next)
  unfolding follow_contour
  stops_home found home = rw (found, follow_contour, home)

  goes_on :
      (c' : Contour)
      → turn 4 ((index + 3) % 4) b d p ≡ some j
      → same_place next start ≡ false
      → follow_contour n b d start next j (add_point c next) ≡ ok c'
      → follow_contour (suc n) b d start p index c ≡ ok c'
  unfolding follow_contour
  goes_on c' found away runs = rw (found, follow_contour, away) runs

  Followed-home :
      j < 4
      → pix_polar b d next ≡ true
      → same_place next start ≡ true
      → Followed b d start p (suc n) c (add_point c next)
  unfolding add_point
  Followed-home below echo home = record {
    added = next ∷ [];
    points = refl;
    trail = ((j, below, refl), echo, tt);
    inside = (add_point-Inside c next, tt);
    wider = add_point-Wider c next;
    most = omega arith;
    least = λ _. omega arith;
    ends = inr home;
  }

  Followed-cons :
      (c' : Contour)
      → j < 4
      → pix_polar b d next ≡ true
      → Followed b d start next n (add_point c next) c'
      → Followed b d start p (suc n) c c'
  unfolding add_point
  Followed-cons c' below echo f = record {
    added = next ∷ f.added;
    points = f.points ∙ append_assoc c.points (next ∷ []) f.added;
    trail = ((j, below, refl), echo, f.trail);
    inside = (Wider-Inside f.wider (add_point-Inside c next), f.inside);
    wider = Wider-trans (add_point-Wider c next) f.wider;
    most = omega (arith, f.most);
    least = λ _. omega arith;
    ends = elim f.ends [ inl full ↦ inl (ap suc full) | inr home ↦ inr home ];
  }

pub follow_lem :
    (b : HistoryBuffer) (d : DopplerState) (start : Polar) (n index : ℕ) (p : Polar) (c : Contour)
    → Beside b d p
    → pix_polar b d p ≡ true
    → (c' : Contour) × (follow_contour n b d start p index c ≡ ok c') × Followed b d start p n c c'
unfolding follow_contour
follow_lem b d start zero index p c s e = (
  c,
  refl,
  record {
    added = [];
    points = sym (append-nil c.points);
    trail = tt;
    inside = tt;
    wider = Wider-refl c;
    most = omega arith;
    least = λ h. h;
    ends = inl refl;
  },
)
follow_lem b d start (suc n) index p c s e =
    let (j, found, below, echo) = turn_finds b d ((index + 3) % 4) p (omega arith) s in
    elim (Bool-cases (same_place (add p (direction j)) start)) [
      | inl home ↦ (
        add_point c (add p (direction j)),
        stops_home b d start p n index j c found home,
        Followed-home b d start p n index j c below echo home,
      )
      | inr away ↦
          let (c', runs, f) =
            follow_lem b d start n j (add p (direction j)) (add_point c (add p (direction j)))
              (Beside-back b d p j below e) echo in
          (
            c',
            goes_on b d start p n index j c c' found away runs,
            Followed-cons b d start p n index j c c' below echo f,
          )
    ]
