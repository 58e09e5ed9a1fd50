-- ===== src/Arpa/Blob/Target.antt =====
-- `get_target`: what the whole search does to the buffer, and what it finds.
use mayara.Prelude.{ℕ, zero, suc, ◌+◌, ◌≡◌, inl, inr, true, false, Bool-cases, List, [], ◌∷◌, max}
use mayara.Prelude.Int.{ℤ, pos, ◌-ℤ◌, pos_part}
use mayara.Arpa.Doppler.{DopplerState}
use mayara.Arpa.Polar.{Polar}
use mayara.Arpa.History.{HistoryBuffer, pix}
use mayara.Arpa.Contour.{Contour, ContourResult, ok, get_contour}
use mayara.Arpa.Contour.Found.{OnEdge, IsTraced, get_contour_lem}
use mayara.Arpa.Blob.{
  Search, search_at, search_all, square, search_squares, find_nearest_contour, min_ℤ, get_target,
  conclude_target, target_search,
}
use mayara.Arpa.Blob.Finding.{multi_pix_lem}

-- No pixel of the new buffer is an echo that was none in the old one, for any Doppler state.
abbrev pub NoNewEcho : HistoryBuffer → HistoryBuffer → Type 0
NoNewEcho b b' = (d : DopplerState) (a r : ℤ) → pix b' d a r ≡ true → pix b d a r ≡ true

search_at-NoNewEcho :
    (d : DopplerState) (s : Search) (p : ℤ × ℤ) → NoNewEcho s.buffer (search_at d s p).buffer
unfolding search_at
search_at-NoNewEcho d s (a, r) = elim (Bool-cases s.found) [
  | inl done ↦ rw (done, search_at) (λ d' a' r' h. h)
  | inr open' ↦ rw (open', search_at) ((multi_pix_lem s.buffer d a r).1)
]

search_all-NoNewEcho :
    (d : DopplerState) (s : Search) (ps : List (ℤ × ℤ))
    → NoNewEcho s.buffer (search_all d s ps).buffer
unfolding search_all
search_all-NoNewEcho d s [] d' a r h = h
search_all-NoNewEcho d s (p ∷ ps) d' a r h =
    search_at-NoNewEcho d s p d' a r (search_all-NoNewEcho d (search_at d s p) ps d' a r h)

search_squares-NoNewEcho :
    (spread : ℤ → ℕ → ℕ) (d : DopplerState) (n j : ℕ) (a r : ℤ) (s : Search)
    → NoNewEcho s.buffer (search_squares spread d n j a r s).buffer
unfolding search_squares
search_squares-NoNewEcho spread d zero j a r s d' a' r' h = h
search_squares-NoNewEcho spread d (suc n) j a r s d' a' r' h =
    let s' = search_all d s (square a r j (spread r j)) in
    search_all-NoNewEcho d s (square a r j (spread r j)) d' a' r'
      (search_squares-NoNewEcho spread d n (j + 1) a r s' d' a' r' h)

-- The contour that is found is one of the buffer, from some point of it.
abbrev pub TracedIn : HistoryBuffer → DopplerState → ContourResult (Contour × Polar) → Type 0
TracedIn b d result =
    (out : Contour × Polar) → result ≡ ok out → (q : Polar) × OnEdge b d q × IsTraced b d q out

get_contour-TracedIn :
    (b : HistoryBuffer) (d : DopplerState) (q : Polar) → TracedIn b d (get_contour b d q)
get_contour-TracedIn b d q out h = elim (get_contour_lem b d q) [
  | inl (edge, (out', e, traced)) ↦ let same : out' ≡ out = cc in (q, edge, rw (← same) traced)
  | inr (_, (e, failed)) ↦ absurd (cc (h, failed))
]

concludes :
    (b : HistoryBuffer) (d : DopplerState) (s : Search)
    → NoNewEcho b s.buffer
    → let (result, b') = conclude_target d s in NoNewEcho b b' × TracedIn b' d result
concludes b d s n = elim (Bool-cases s.found) [
  | inl yes' ↦ rw yes' (n, get_contour-TracedIn s.buffer d s.at_point)
  | inr no' ↦ rw no' (n, λ out h. cc)
]

target_search-NoNewEcho :
    (spread : ℤ → ℕ → ℕ) (b : HistoryBuffer) (d : DopplerState) (p : Polar) (dist : ℤ)
    → NoNewEcho b (target_search spread b d p dist).buffer
unfolding target_search find_nearest_contour
target_search-NoNewEcho spread b d p dist = elim (Bool-cases (pix b d p.angle p.r)) [
  | inl echo ↦ rw (echo, target_search) ((multi_pix_lem b d _ p.r).1)
  | inr quiet ↦
      rw (quiet, target_search)
        (search_squares-NoNewEcho spread d (max 2 (pos_part (min_ℤ dist (p.r -ℤ pos 5)))) 1 p.angle
          p.r (record { found = false; at_point = p; buffer = b }))
]

-- Wherever a target is looked for and whatever the distances are, no pixel becomes an echo that
-- was none, for any Doppler state; and a contour that is returned is traced in the buffer that is
-- left, from some point on the edge of an echo.
pub get_target_lem :
    (spread : ℤ → ℕ → ℕ) (b : HistoryBuffer) (d : DopplerState) (p : Polar) (dist : ℤ)
    → let (result, b') = get_target spread b d p dist in NoNewEcho b b' × TracedIn b' d result
unfolding get_target
get_target_lem spread b d p dist =
    concludes b d (target_search spread b d p dist) (target_search-NoNewEcho spread b d p dist)
