-- ===== src/Arpa/Blob/Fading.antt =====
-- Erasing small blobs: the pixels before and after.
use mayara.Prelude.{
  ℕ, zero, suc, ◌≡◌, ◌⊎◌, inl, inr, refl, ap, ◌∙◌, true, List, [], ◌∷◌, some, arith, length,
  get_elem?,
}
use mayara.Prelude.Int.{ℤ, pos, negsuc, ◌+ℤ◌}
use mayara.Arpa.Doppler.{DopplerState, matches_pixel}
use mayara.Arpa.History.{
  HistoryPixel, HistorySpoke, HistoryBuffer, clear_target, matches_doppler, pixel_at, spoke_len,
  mod_spokes,
}
use mayara.Arpa.Blob.{modify_at, update_pixel, on_radii, erase, steps}

-- The pixel has the same Doppler flags and no new ones.
pub record Fainter (p p' : HistoryPixel) : Type 0 where
  pub approaching : p'.approaching ≡ p.approaching
  pub receding : p'.receding ≡ p.receding
  pub target : p'.target ≡ true → p.target ≡ true
  pub backup : p'.backup ≡ true → p.backup ≡ true

Fainter-clear_target : (p : HistoryPixel) → Fainter p (clear_target p)
Fainter-clear_target p = record {
  approaching = refl;
  receding = refl;
  target = λ h. cc;
  backup = λ h. cc;
}

pub Fainter-matches :
    (p p' : HistoryPixel) (d : DopplerState)
    → Fainter p p'
    → matches_doppler p' d ≡ true
    → matches_doppler p d ≡ true
unfolding matches_doppler matches_pixel
Fainter-matches p p' d f h = ground (arith, f.approaching, f.receding, f.target, f.backup)

-- Every pixel of the new buffer is one of the old buffer, perhaps fainter.
pub record Faded (b b' : HistoryBuffer) : Type 0 where
  pub revolution : b'.spokes_per_revolution ≡ b.spokes_per_revolution
  pub reach : spoke_len b' ≡ spoke_len b
  pub pixels :
      (i r : ℕ) (p' : HistoryPixel)
      → pixel_at b'.spokes i r ≡ some p'
      → (p : HistoryPixel) × (pixel_at b.spokes i r ≡ some p) × Fainter p p'

Fainter-refl : (p : HistoryPixel) → Fainter p p
Fainter-refl p = record { approaching = refl; receding = refl; target = λ h. h; backup = λ h. h }

Fainter-trans : {p q s : HistoryPixel} → Fainter p q → Fainter q s → Fainter p s
Fainter-trans f g = record {
  approaching = g.approaching ∙ f.approaching;
  receding = g.receding ∙ f.receding;
  target = λ h. f.target (g.target h);
  backup = λ h. f.backup (g.backup h);
}

pub Faded-refl : (b : HistoryBuffer) → Faded b b
Faded-refl b = record {
  revolution = refl;
  reach = refl;
  pixels = λ i r p h. (p, h, Fainter-refl p);
}

pub Faded-trans : {a b c : HistoryBuffer} → Faded a b → Faded b c → Faded a c
Faded-trans f g = record {
  revolution = g.revolution ∙ f.revolution;
  reach = g.reach ∙ f.reach;
  pixels = λ i r p h.
      let (q, at_q, fainter) = g.pixels i r p h in
      let (s, at_s, fainter') = f.pixels i r q at_q in (s, at_s, Fainter-trans fainter' fainter);
}

length-modify_at {ℓ} :
    {A : Type ℓ} (f : A → A) (i : ℕ) (xs : List A) → length (modify_at f i xs) ≡ length xs
length-modify_at f i [] = refl
length-modify_at f zero (x ∷ xs) = refl
length-modify_at f (suc i) (x ∷ xs) = ap suc (length-modify_at f i xs)

-- An element of the changed list is one of the old list, or the change of one.
get_elem?-modify_at {ℓ} :
    {A : Type ℓ} (f : A → A) (i j : ℕ) (xs : List A) (y : A)
    → get_elem? (modify_at f i xs) j ≡ some y
    → (get_elem? xs j ≡ some y) ⊎ ((x : A) × (get_elem? xs j ≡ some x) × (y ≡ f x))
get_elem?-modify_at f i j [] y h = inl h
get_elem?-modify_at f zero zero (x ∷ xs) y h = inr (x, refl, cc)
get_elem?-modify_at f zero (suc j) (x ∷ xs) y h = inl h
get_elem?-modify_at f (suc i) zero (x ∷ xs) y h = inl h
get_elem?-modify_at f (suc i) (suc j) (x ∷ xs) y h = get_elem?-modify_at f i j xs y h

abbrev change_spoke : (HistoryPixel → HistoryPixel) → ℕ → HistorySpoke → HistorySpoke
change_spoke f r s = record s { sweep = modify_at f r s.sweep }

pixel_at-modify_at :
    (f : HistoryPixel → HistoryPixel) (i r j k : ℕ) (spokes : List HistorySpoke) (p' : HistoryPixel)
    → pixel_at (modify_at (change_spoke f r) i spokes) j k ≡ some p'
    → (pixel_at spokes j k ≡ some p')
      ⊎ ((p : HistoryPixel) × (pixel_at spokes j k ≡ some p) × (p' ≡ f p))
pixel_at-modify_at f i r j k [] p' h = inl h
pixel_at-modify_at f zero r zero k (s ∷ ss) p' h = get_elem?-modify_at f r k s.sweep p' h
pixel_at-modify_at f zero r (suc j) k (s ∷ ss) p' h = inl h
pixel_at-modify_at f (suc i) r zero k (s ∷ ss) p' h = inl h
pixel_at-modify_at f (suc i) r (suc j) k (s ∷ ss) p' h = pixel_at-modify_at f i r j k ss p' h

spoke_len-update_pixel :
    (f : HistoryPixel → HistoryPixel) (i r : ℕ) (ss : List HistorySpoke) (n : ℕ)
    → spoke_len (record { spokes = modify_at (change_spoke f r) i ss; spokes_per_revolution = n })
      ≡ spoke_len (record { spokes = ss; spokes_per_revolution = n })
unfolding spoke_len
spoke_len-update_pixel f i r [] n = refl
spoke_len-update_pixel f zero r (s ∷ ss) n = length-modify_at f r s.sweep
spoke_len-update_pixel f (suc i) r (s ∷ ss) n = refl

update_pixel-Faded : (i : ℕ) (r : ℤ) (b : HistoryBuffer) → Faded b (update_pixel clear_target i r b)
unfolding update_pixel
update_pixel-Faded i (negsuc r) b = Faded-refl b
update_pixel-Faded i (pos r) b = record {
  revolution = refl;
  reach = spoke_len-update_pixel clear_target i r b.spokes b.spokes_per_revolution;
  pixels = λ j k p' h. elim (pixel_at-modify_at clear_target i r j k b.spokes p' h) [
    | inl same ↦ (p', same, Fainter-refl p')
    | inr (p, old, e) ↦ (p, old, rw e (Fainter-clear_target p))
  ];
}

on_radii-Faded : (n i : ℕ) (r : ℤ) (b : HistoryBuffer) → Faded b (on_radii clear_target n r i b)
unfolding on_radii
on_radii-Faded zero i r b = Faded-refl b
on_radii-Faded (suc n) i r b =
    Faded-trans (update_pixel-Faded i r b)
      (on_radii-Faded n i (r +ℤ pos 1) (update_pixel clear_target i r b))

pub erase-Faded : (n : ℕ) (a lo hi : ℤ) (b : HistoryBuffer) → Faded b (erase n a lo hi b)
unfolding erase
erase-Faded zero a lo hi b = Faded-refl b
erase-Faded (suc n) a lo hi b =
    Faded-trans (on_radii-Faded (steps lo hi) (mod_spokes b a) lo b)
      (erase-Faded n (a +ℤ pos 1) lo hi (on_radii clear_target (steps lo hi) lo (mod_spokes b a) b))
