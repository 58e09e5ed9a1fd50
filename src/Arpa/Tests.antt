-- ===== src/Arpa/Tests.antt =====
-- A small buffer with an echo, on which the theorems on tracking are applied.
use mayara.Prelude.{
  false, true, ℕ, ◌<◌, ◌≤◌, ◌≡◌, ◌≢◌, ◌⊎◌, [], ◌∷◌, ◌++◌, some, get_elem?, replicate, length,
}
use mayara.Prelude.Int.{ℤ, pos}
use mayara.Arpa.Doppler.{DopplerState, any}
use mayara.Arpa.Polar.{Polar}
use mayara.Arpa.History.{
  pix, HistorySpoke, HistoryBuffer, Legend, initial_pixel, empty_pixel, update_spoke,
}
use mayara.Arpa.History.Update.{update_spoke_lem, Holds}
use mayara.Arpa.Contour.{Contour, ContourError, get_contour, ok, err}
use mayara.Arpa.Contour.Found.{OnEdge, IsTraced, get_contour_lem}
use mayara.Arpa.Blob.{multi_pix, find_contour_from_inside, get_target}
use mayara.Arpa.Blob.Finding.{multi_pix_lem}
use mayara.Arpa.Blob.Inside.{IsEdge, find_contour_from_inside_lem}
use mayara.Arpa.Blob.Target.{NoNewEcho, TracedIn, get_target_lem}

abbrev silent : HistorySpoke
silent = record { sweep = replicate 8 empty_pixel; time = 5; lat = 0; lon = 0 }

abbrev echoing : HistorySpoke
echoing = record silent {
  sweep =
      replicate 4 empty_pixel ++ (initial_pixel ∷ initial_pixel ∷ empty_pixel ∷ empty_pixel ∷ []);
}

-- six spokes of eight pixels, with an echo of four pixels on the spokes 2 and 3
abbrev buffer : HistoryBuffer
buffer = record {
  spokes = silent ∷ silent ∷ echoing ∷ echoing ∷ silent ∷ silent ∷ [];
  spokes_per_revolution = 6;
}

abbrev corner : Polar
corner = record { angle = pos 2; r = pos 4; time = 0 }

get_contour_lem_example :
    OnEdge buffer any corner
      × ((out : Contour × Polar) × (get_contour buffer any corner ≡ ok out)
          × IsTraced buffer any corner out)
    ⊎ ¬ OnEdge buffer any corner × ((e : ContourError) × (get_contour buffer any corner ≡ err e))
get_contour_lem_example = get_contour_lem buffer any corner

abbrev legend : Legend
legend = record {
  strong_return = 64;
  doppler_approaching = 255;
  doppler_receding = 254;
  border = 253;
}

update_spoke_lem_example :
    let b' = update_spoke buffer 1 (9 ∷ 70 ∷ 255 ∷ []) 77 1 2 legend in
    (1 < 6)
      × ((s : HistorySpoke) × (get_elem? b'.spokes 1 ≡ some s)
          × Holds legend (9 ∷ 70 ∷ 255 ∷ []) s
          × (s.time ≡ 77)
          × (s.lat ≡ 1)
          × (s.lon ≡ 2))
      × ((i : ℕ) → 1 ≢ i → get_elem? b'.spokes i ≡ get_elem? buffer.spokes i)
      × (length b'.spokes ≡ 6)
      × (b'.spokes_per_revolution ≡ 6)
    ⊎ (6 ≤ 1) × (b' ≡ buffer)
update_spoke_lem_example = update_spoke_lem buffer 1 (9 ∷ 70 ∷ 255 ∷ []) 77 1 2 legend

-- the echo of four pixels is too small for a target
multi_pix_lem_example :
    let (found, b') = multi_pix buffer any (pos 2) (pos 4) in
    (found ≡ true → (b' ≡ buffer) × (pix buffer any (pos 2) (pos 4) ≡ true))
    × ((d' : DopplerState) (a' r' : ℤ) → pix b' d' a' r' ≡ true → pix buffer d' a' r' ≡ true)
multi_pix_lem_example = multi_pix_lem buffer any (pos 2) (pos 4)

find_contour_from_inside_lem_example :
    let (found, p', b') = find_contour_from_inside buffer any corner in
    (found ≡ true) × (b' ≡ buffer) × (p'.r ≡ pos 4) × IsEdge buffer any (pos 2) (pos 4) p'.angle
    ⊎ (found ≡ false)
      × ((d' : DopplerState) (a r : ℤ) → pix b' d' a r ≡ true → pix buffer d' a r ≡ true)
find_contour_from_inside_lem_example = find_contour_from_inside_lem buffer any corner

get_target_lem_example :
    let (result, b') = get_target (λ r j. j) buffer any corner (pos 3) in
    NoNewEcho buffer b' × TracedIn b' any result
get_target_lem_example = get_target_lem (λ r j. j) buffer any corner (pos 3)
