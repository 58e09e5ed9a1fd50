-- ===== src/Arpa/History/Update.antt =====
-- `update_spoke`: what a spoke that comes in leaves in the buffer.
use mayara.Prelude.{
  ℕ, zero, suc, ◌≤◌, ◌<◌, ◌≡◌, ◌≢◌, ◌⊎◌, ◌↔◌, inl, inr, refl, true, false, List, [], ◌∷◌, some,
  arith, length, get_elem?, map, leb, Bool-cases, length-set, get_elem?-set_self, get_elem?-set_ne,
  leb→le,
}
use mayara.Arpa.History.{
  HistoryPixel, HistorySpoke, HistoryBuffer, Legend, classify_value, update_spoke,
}

-- The value decides on the flags: a strong return is a target and was one, and the two Doppler
-- values give theirs.
pub record Classified (legend : Legend) (value : ℕ) (p : HistoryPixel) : Type 0 where
  pub strong : (legend.strong_return ≤ value) → (p.target ≡ true) × (p.backup ≡ true)
  pub weak : (value < legend.strong_return) → (p.target ≡ false) × (p.backup ≡ false)
  pub approaching : (p.approaching ≡ true) ↔ (value ≡ legend.doppler_approaching)
  pub receding : (p.receding ≡ true) ↔ (value ≡ legend.doppler_receding)
  pub contour : p.contour ≡ false

classify_value-Classified :
    (legend : Legend) (value : ℕ) → Classified legend value (classify_value legend value)
unfolding classify_value
classify_value-Classified legend value = record {
  strong = λ h. ground arith;
  weak = λ h. ground arith;
  approaching = ground arith;
  receding = ground arith;
  contour = ground arith;
}

get_elem?-map {ℓ κ} :
    {A : Type ℓ} {B : Type κ} (f : A → B) (xs : List A) (r : ℕ) (x : A)
    → get_elem? xs r ≡ some x
    → get_elem? (map f xs) r ≡ some (f x)
get_elem?-map f [] r x h = cc
get_elem?-map f (y ∷ xs) zero x h = ground (arith, h)
get_elem?-map f (y ∷ xs) (suc r) x h = get_elem?-map f xs r x h

length-map {ℓ κ} :
    {A : Type ℓ} {B : Type κ} (f : A → B) (xs : List A) → length (map f xs) ≡ length xs
length-map f [] = refl
length-map f (x ∷ xs) = ground (arith, length-map f xs)

-- A spoke of exactly the values: as many pixels, each of them classified from the value at its place.
pub record Holds (legend : Legend) (values : List ℕ) (s : HistorySpoke) : Type 0 where
  pub size : length s.sweep ≡ length values
  pub pixels :
      (r value : ℕ)
      → get_elem? values r ≡ some value
      → (p : HistoryPixel) × (get_elem? s.sweep r ≡ some p) × Classified legend value p

-- A spoke that is within the buffer becomes one of exactly the values: it has as many pixels as there are
-- values, and none of the old ones, each pixel is classified from the value at its place, and the time and
-- the position are the new ones. The other spokes, the number of spokes and the spokes of a revolution
-- stay. A spoke that is not within the buffer changes nothing.
pub update_spoke_lem :
    (b : HistoryBuffer) (angle : ℕ) (values : List ℕ) (time lat lon : ℕ) (legend : Legend)
    → let b' = update_spoke b angle values time lat lon legend in
      (angle < length b.spokes)
        × ((s : HistorySpoke) × (get_elem? b'.spokes angle ≡ some s)
            × Holds legend values s
            × (s.time ≡ time)
            × (s.lat ≡ lat)
            × (s.lon ≡ lon))
        × ((i : ℕ) → angle ≢ i → get_elem? b'.spokes i ≡ get_elem? b.spokes i)
        × (length b'.spokes ≡ length b.spokes)
        × (b'.spokes_per_revolution ≡ b.spokes_per_revolution)
      ⊎ (length b.spokes ≤ angle) × (b' ≡ b)
unfolding update_spoke
update_spoke_lem b angle values time lat lon legend =
    elim (Bool-cases (leb (length b.spokes) angle)) [
      | inl outside ↦ inr (leb→le (length b.spokes) angle outside, rw outside)
      | inr within ↦
          let below : angle < length b.spokes = ground (arith, within) in
          let spoke : HistorySpoke = record {
            sweep = map (classify_value legend) values;
            time = time;
            lat = lat;
            lon = lon;
          } in
          let held : Holds legend values spoke = record {
            size = length-map (classify_value legend) values;
            pixels = λ r value h. (
              classify_value legend value,
              get_elem?-map (classify_value legend) values r value h,
              classify_value-Classified legend value,
            );
          } in
          inl (
            below,
            (
              spoke,
              rw within (get_elem?-set_self b.spokes angle spoke below),
              held,
              refl,
              refl,
              refl,
            ),
            (λ i other. rw within (get_elem?-set_ne b.spokes _ other)),
            rw within (length-set b.spokes angle _),
            rw within refl,
          )
    ]
