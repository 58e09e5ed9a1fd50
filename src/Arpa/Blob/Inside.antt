-- ===== src/Arpa/Blob/Inside.antt =====
-- `find_contour_from_inside`: to the edge of a blob.
use mayara.Prelude.{
  ℕ, zero, suc, ◌+◌, ◌/◌, ◌≤◌, ◌≡◌, ◌⊎◌, inl, inr, refl, ap, ◌∙◌, true, false, Bool-cases, arith,
}
use mayara.Prelude.Int.{ℤ, pos, ◌+ℤ◌, ◌-ℤ◌, int_laws}
use mayara.Arpa.Doppler.{DopplerState}
use mayara.Arpa.Polar.{Polar}
use mayara.Arpa.History.{HistoryBuffer, pix}
use mayara.Arpa.Blob.{multi_pix, slide, find_contour_from_inside}
use mayara.Arpa.Blob.Finding.{Slid, slide_lem, multi_pix_lem}

-- The angle `a'` is up to an eighth of a revolution to the left of `a`, all spokes between are echoes
-- at this radius, and the next one is none unless the eighth is reached.
pub record IsEdge (b : HistoryBuffer) (d : DopplerState) (a r a' : ℤ) : Type 0 where
  pub moved : ℕ
  pub below : moved ≤ b.spokes_per_revolution / 8
  pub place : a' +ℤ pos moved ≡ a
  pub stop : (moved ≡ b.spokes_per_revolution / 8) ⊎ (pix b d (a' -ℤ pos 1) r ≡ false)
  pub echoes : (i : ℕ) → i ≤ moved → pix b d (a -ℤ pos i) r ≡ true

Slid-IsEdge :
    (b : HistoryBuffer) (d : DopplerState) (a r a' : ℤ)
    → pix b d a r ≡ true
    → Slid b d (b.spokes_per_revolution / 8 + 1) a r a'
    → IsEdge b d a r (a' +ℤ pos 1)
Slid-IsEdge b d a r a' echo (zero, le, e, inl all, echoes) = absurd (omega arith)
Slid-IsEdge b d a r a' echo (zero, le, e, inr quiet, echoes) =
    let same : a' ≡ a = e ∙ omega int_laws in absurd (cc (echo, quiet, same))
Slid-IsEdge b d a r a' echo (suc n, le, e, stop, echoes) = record {
  moved = n;
  below = omega arith;
  place = ap (λ x. x +ℤ pos 1 +ℤ pos n) e ∙ omega int_laws;
  stop = elim stop [
    | inl all ↦ inl (omega arith)
    | inr quiet ↦ inr (let back : a' +ℤ pos 1 -ℤ pos 1 ≡ a' = omega int_laws in rw back quiet)
  ];
  echoes = λ i h. echoes i (omega arith);
}

-- If a blob is found from a point inside it, the buffer stays as it is, the radius too, and the
-- point is moved to the left over echoes only, to the edge of the blob or by an eighth of a
-- revolution. If none is found, no pixel has become an echo that was none, for any Doppler state.
pub find_contour_from_inside_lem :
    (b : HistoryBuffer) (d : DopplerState) (p : Polar)
    → let (found, p', b') = find_contour_from_inside b d p in
      (found ≡ true) × (b' ≡ b) × (p'.r ≡ p.r) × IsEdge b d p.angle p.r p'.angle
      ⊎ (found ≡ false)
        × ((d' : DopplerState) (a r : ℤ) → pix b' d' a r ≡ true → pix b d' a r ≡ true)
unfolding find_contour_from_inside
find_contour_from_inside_lem b d p = elim (Bool-cases (pix b d p.angle p.r)) [
  | inr quiet ↦ rw quiet (inr (refl, λ d' a r h. h))
  | inl echo ↦
      let angle = slide (b.spokes_per_revolution / 8 + 1) b d p.angle p.r +ℤ pos 1 in
      let (kept, faded) = multi_pix_lem b d angle p.r in
      rw echo (elim (Bool-cases ((multi_pix b d angle p.r).0)) [
        | inl found ↦ inl (
          found,
          (kept found).0,
          refl,
          Slid-IsEdge b d p.angle p.r _ echo
              (slide_lem (b.spokes_per_revolution / 8 + 1) b d p.angle p.r),
        )
        | inr none' ↦ inr (none', faded)
      ])
]
