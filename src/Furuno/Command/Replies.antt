-- ===== src/Furuno/Command/Replies.antt =====
-- The replies of a radar, lines that `format_command` writes with the mode New, at the parsers of the
-- single responses.
use mayara.Prelude.{
  ℕ, ◌-◌, ◌*◌, ◌/◌, ◌%◌, ◌^◌, ◌≤◌, ◌<◌, ◌≡◌, ◌∙◌, refl, ap, Bool, true, ◌&&◌, List, [], ◌∷◌, none,
  some, if◌then◌else◌, arith, ◌==◌,
}
use mayara.Prelude.Int.{ℤ, pos, eq_ℤ, ◌*ℤ◌, IsI32}
use mayara.Furuno.Command.{
  CommandMode, CommandId, new, is_new, as_hex, format_command, gain, sea, rain, blind_sector,
  main_bang_size,
}
use mayara.Furuno.Command.Formats.{flag, wrap_i32, div_i32, main_bang_of}
use mayara.Furuno.Command.Responses.{
  response_to, parse_main_bang_response, percent_of, parse_gain_response, parse_sea_response,
  parse_rain_response, parse_blind_sector_response, ControlValue,
}
use mayara.Furuno.Command.Roundtrip.{AreI32, parse_response-format_command}

-- A line is a response to `id` where its mode is New and its id is that one.
pub response_to-format_command :
    (id : CommandId) (mode : CommandMode) (other : CommandId) (args : List ℤ)
    → AreI32 args
    → response_to id (format_command mode other args)
      ≡ (if is_new mode && (as_hex other == as_hex id) then some args else none)
unfolding response_to
response_to-format_command id mode other args h =
    rw (parse_response-format_command mode other args h) (ground arith)

reply :
    (id : CommandId) (args : List ℤ)
    → AreI32 args
    → response_to id (format_command new id args) ≡ some args
reply id args h =
    let same : (as_hex id == as_hex id) ≡ true = ground arith in
    rw (response_to-format_command id new id args h, same) refl

-- The percentage that is read for one that is set.
abbrev pub read_back : ℕ → ℕ
read_back p = if p % 20 == 0 then p else p - 1

times_pos : (n k : ℕ) → pos n *ℤ pos k ≡ pos (n * k)
unfolding ◌*ℤ◌
times_pos n k = ground arith

-- What an i32 holds does not wrap around.
wrap_i32_pos : (n : ℕ) → n < 2 ^ 31 → wrap_i32 (pos n) ≡ pos n
unfolding wrap_i32
wrap_i32_pos n h = let e : n % 2 ^ 32 ≡ n = omega arith in rw e (ground (arith, h))

wrap_i32_small : (n k : ℕ) → n * k < 2 ^ 31 → wrap_i32 (pos n *ℤ pos k) ≡ pos (n * k)
wrap_i32_small n k h = ap wrap_i32 (times_pos n k) ∙ wrap_i32_pos (n * k) h

main_bang_of_lem : (p : ℕ) → p ≤ 100 → main_bang_of (pos p) ≡ pos (p * 255 / 100)
main_bang_of_lem p h = ap (λ z. div_i32 z 100) (wrap_i32_small p 255 (omega arith))

percent_of_lem : (v : ℕ) → v ≤ 255 → percent_of (pos v) ≡ pos (v * 100 / 255)
percent_of_lem v h = ap (λ z. div_i32 z 255) (wrap_i32_small v 100 (omega arith))

both_lem : (p : ℕ) → p ≤ 100 → p * 255 / 100 * 100 / 255 ≡ read_back p
both_lem p h = ground arith

-- A percentage of the main bang suppression that is set and that the radar gives back is read as it was
-- where it is a multiple of 20, and as one less where it is not: both conversions round down.
pub parse_main_bang_response_lem :
    (p : ℕ)
    → p ≤ 100
    → parse_main_bang_response
        (format_command new main_bang_size (main_bang_of (pos p) ∷ pos 0 ∷ []))
      ≡ some (pos (read_back p))
unfolding parse_main_bang_response
parse_main_bang_response_lem p h =
    rw
      (
        main_bang_of_lem p h,
        reply main_bang_size (pos (p * 255 / 100) ∷ pos 0 ∷ []) (omega arith, (omega arith, tt)),
      )
      (ap some (percent_of_lem (p * 255 / 100) (omega arith) ∙ ap pos (both_lem p h)))

-- The reply to each control, with any further arguments behind those that are read, gives the values in it:
-- the automatic mode and the value of the gain, of the sea clutter and of the rain clutter, and the starts
-- and widths of the two blind sectors.
pub control_replies_lem :
    (auto : Bool) (value start1 width1 start2 width2 : ℤ) (rest : List ℤ)
    → IsI32 value
    → AreI32 (start1 ∷ width1 ∷ start2 ∷ width2 ∷ [])
    → AreI32 rest
    → let v : ControlValue = record { auto = auto; value = value } in
      (parse_gain_response (format_command new gain (flag auto ∷ value ∷ rest)) ≡ some v)
      × (parse_sea_response (format_command new sea (flag auto ∷ value ∷ rest)) ≡ some v)
      × (parse_rain_response (format_command new rain (flag auto ∷ value ∷ rest)) ≡ some v)
      × (parse_blind_sector_response
            (format_command new blind_sector (flag auto ∷ start1 ∷ width1 ∷ start2 ∷ width2 ∷ rest))
          ≡ some (record {
            sector1_start = start1;
            sector1_width = width1;
            sector2_start = start2;
            sector2_width = width2;
          }))
unfolding parse_gain_response parse_sea_response parse_rain_response parse_blind_sector_response
control_replies_lem auto value s1 w1 s2 w2 rest h (h1, (h2, (h3, (h4, _)))) hs =
    let f : IsI32 (flag auto) = ground arith in
    let e : eq_ℤ (flag auto) (pos 1) ≡ auto = ground arith in
    let args = flag auto ∷ value ∷ rest in
    rw
      (
        reply gain args (f, (h, hs)),
        reply sea args (f, (h, hs)),
        reply rain args (f, (h, hs)),
        reply blind_sector (flag auto ∷ s1 ∷ w1 ∷ s2 ∷ w2 ∷ rest) (f, (h1, (h2, (h3, (h4, hs))))),
        e,
      )
      (refl, refl, refl, refl)
