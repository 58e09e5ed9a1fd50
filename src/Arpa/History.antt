-- ===== src/Arpa/History.antt =====
-- The history buffer of the spokes, mayara-core/src/arpa/history.rs: its pixels, the access to
-- them, and what a spoke that comes in leaves there.
pub mod Angles
pub mod Update
use mayara.Prelude.{
  ℕ, zero, suc, ◌+◌, ◌-◌, ◌%◌, ◌==◌, Bool, true, false, ◌&&◌, ◌||◌, List, [], ◌∷◌, Option, none,
  some, if◌then◌else◌, ltb, leb, length, get_elem?, set, map, replicate,
}
use mayara.Prelude.Int.{ℤ, pos, negsuc}
use mayara.Arpa.Doppler.{DopplerState, matches_pixel}

-- The flags of a pixel: 0x80, 0x40, 0x20, 0x10 and 0x08.
pub record HistoryPixel : Type 0 where
  pub target : Bool
  pub backup : Bool
  pub approaching : Bool
  pub receding : Bool
  pub contour : Bool

-- `HistoryPixel::new`, `HistoryPixel::empty`
abbrev pub empty_pixel : HistoryPixel
empty_pixel = record {
  target = false;
  backup = false;
  approaching = false;
  receding = false;
  contour = false;
}

-- `HistoryPixel::INITIAL`
abbrev pub initial_pixel : HistoryPixel
initial_pixel = record empty_pixel { target = true; backup = true }

-- `pixel.intersection(HistoryPixel::NO_TARGET | HistoryPixel::CONTOUR)`
abbrev pub clear_target : HistoryPixel → HistoryPixel
clear_target p = record p { target = false; backup = false }

unfoldable pub matches_doppler : HistoryPixel → DopplerState → Bool
matches_doppler p d = matches_pixel d p.target p.backup p.approaching p.receding

-- `lat` and `lon` are f64, which are only stored: their 64 bits.
pub record HistorySpoke : Type 0 where
  pub sweep : List HistoryPixel
  pub time : ℕ  -- u64
  pub lat : ℕ
  pub lon : ℕ

-- `HistorySpoke::new(0, 0.0, 0.0)`
abbrev pub empty_spoke : HistorySpoke
empty_spoke = record { sweep = []; time = 0; lat = 0; lon = 0 }

pub record Legend : Type 0 where
  pub strong_return : ℕ  -- u8
  pub doppler_approaching : ℕ  -- u8
  pub doppler_receding : ℕ  -- u8
  pub border : ℕ  -- u8

pub record HistoryBuffer : Type 0 where
  pub spokes : List HistorySpoke
  pub spokes_per_revolution : ℕ

-- `HistoryBuffer::new`
unfoldable pub new : ℕ → HistoryBuffer
new n = record { spokes = replicate n empty_spoke; spokes_per_revolution = n }

-- `HistoryBuffer::reset`
unfoldable pub reset : HistoryBuffer → HistoryBuffer
reset b = record b {
  spokes = map (λ (s : HistorySpoke). record s { sweep = []; time = 0 }) b.spokes;
}

-- `mod_spokes`: the remainder of i32 has the sign of the dividend, hence the sum.
unfoldable pub mod_spokes : HistoryBuffer → ℤ → ℕ
mod_spokes b (pos a) =
    (a % b.spokes_per_revolution + b.spokes_per_revolution) % b.spokes_per_revolution
mod_spokes b (negsuc a) =
    (b.spokes_per_revolution - suc a % b.spokes_per_revolution) % b.spokes_per_revolution

-- `spoke_len`: that of the first spoke
unfoldable pub spoke_len : HistoryBuffer → ℕ
spoke_len b = elim b.spokes [ [] ↦ 0 | s ∷ ss ↦ length s.sweep ]

-- `sweep.get(r).map(...).unwrap_or(false)`
abbrev pub matches_at : DopplerState → Option HistoryPixel → Bool
matches_at d none = false
matches_at d (some p) = matches_doppler p d

abbrev pub pixel_at : List HistorySpoke → ℕ → ℕ → Option HistoryPixel
pixel_at spokes i r = elim (get_elem? spokes i) [ none ↦ none | some s ↦ get_elem? s.sweep r ]

-- `pix`: a negative radius is a huge one as `usize`; an index past the spokes has no pixel.
unfoldable pub pix : HistoryBuffer → DopplerState → ℤ → ℤ → Bool
unfolding mod_spokes spoke_len
pix b d angle (negsuc r) = false
pix b d angle (pos r) =
    if leb (spoke_len b) r || ltb r 3
    then false
    else matches_at d (pixel_at b.spokes (mod_spokes b angle) r)

-- what `update_spoke` makes of one value
unfoldable pub classify_value : Legend → ℕ → HistoryPixel
classify_value legend value =
    let p = if leb legend.strong_return value then initial_pixel else empty_pixel in
    let p = if value == legend.doppler_approaching then record p { approaching = true } else p in
    if value == legend.doppler_receding then record p { receding = true } else p

-- `update_spoke`
unfoldable pub update_spoke : HistoryBuffer → ℕ → List ℕ → ℕ → ℕ → ℕ → Legend → HistoryBuffer
unfolding classify_value
update_spoke b angle values time lat lon legend =
    if leb (length b.spokes) angle then b else (record b {
      spokes = set b.spokes angle (record {
        sweep = map (classify_value legend) values;
        time = time;
        lat = lat;
        lon = lon;
      });
    })

-- `get_time_at_angle` and `get_position_at_angle`: `none` where the source would panic.
unfoldable pub get_time_at_angle : HistoryBuffer → ℤ → Option ℕ
get_time_at_angle b angle = elim (get_elem? b.spokes (mod_spokes b angle)) [
  | none ↦ none
  | some s ↦ some s.time
]

unfoldable pub get_position_at_angle : HistoryBuffer → ℤ → Option (ℕ × ℕ)
get_position_at_angle b angle = elim (get_elem? b.spokes (mod_spokes b angle)) [
  | none ↦ none
  | some s ↦ some (s.lat, s.lon)
]
