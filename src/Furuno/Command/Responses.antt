-- ===== src/Furuno/Command/Responses.antt =====
-- The responses of mayara-core/src/protocol/furuno/command.rs: `parse_response`, and the parsers of the
-- single responses.
use mayara.Prelude.{
  ℕ, ◌+◌, ◌-◌, ◌*◌, ◌^◌, Bool, ◌||◌, not, List, [], ◌∷◌, Option, none, some, if◌then◌else◌, ltb,
  ◌==◌,
}
use mayara.Prelude.Int.{ℤ, pos, eq_ℤ, ltb_ℤ, ◌+ℤ◌, ◌*ℤ◌}
use mayara.Packet.Text.{between, unsigned, read_digits, trim}
use mayara.Furuno.Command.{
  CommandMode, CommandId, set, request, new, is_new, as_hex, range, gain, sea, rain,
  signal_processing, status, blind_sector, main_bang_size, scan_speed, tx_channel, bird_mode,
  rez_boost, target_analyzer,
}
use mayara.Furuno.Command.Formats.{wrap_i32, minus, div_i32, rem_i32}

-- `Option` with `?`
infixl 5 ◌>>=◌
abbrev pub ◌>>=◌ {ℓ κ} : {A : Type ℓ} {B : Type κ} → Option A → (A → Option B) → Option B
none >>= f = none
some a >>= f = f a

abbrev pub map_option {ℓ κ} : {A : Type ℓ} {B : Type κ} → (A → B) → Option A → Option B
map_option f none = none
map_option f (some a) = some (f a)

-- `s.parse::<i32>().ok()`: a sign or none, and a number whose value an i32 holds
unfoldable pub read_i32 : List ℕ → Option ℤ
read_i32 [] = none
read_i32 (c ∷ s) =
    if c == 0x2B
    then map_option pos (unsigned (2 ^ 31) s)
    else (if c == 0x2D
        then map_option minus (unsigned (2 ^ 31 + 1) s)
        else map_option pos (read_digits (2 ^ 31) 0 (c ∷ s)))

-- `char::to_digit(16)`
abbrev pub hex_value : ℕ → Option ℕ
hex_value c =
    if between 0x30 0x39 c
    then some (c - 0x30)
    else (if between 0x41 0x46 c
        then some (c - 0x37)
        else (if between 0x61 0x66 c then some (c - 0x57) else none))

abbrev pub read_hex_digits : ℕ → List ℕ → Option ℕ
read_hex_digits n [] = some n
read_hex_digits n (c ∷ s) = do
  d ← hex_value c
  if ltb (n * 16 + d) 256 then read_hex_digits (n * 16 + d) s else none

-- one digit at least
abbrev pub hex_number : List ℕ → Option ℕ
hex_number [] = none
hex_number (c ∷ s) = read_hex_digits 0 (c ∷ s)

-- `u8::from_str_radix(s, 16).ok()`, which takes a `+` in front of the digits
unfoldable pub read_hex_u8 : List ℕ → Option ℕ
read_hex_u8 [] = none
read_hex_u8 (c ∷ s) = if c == 0x2B then hex_number s else hex_number (c ∷ s)

-- `line.len()`, the bytes of a text in UTF-8
abbrev pub utf8_len : List ℕ → ℕ
utf8_len [] = 0
utf8_len (c ∷ s) =
    (if ltb c 0x80 then 1 else (if ltb c 0x800 then 2 else (if ltb c 0x10000 then 3 else 4)))
    + utf8_len s

-- `s.split(',')`
abbrev pub onto_first : ℕ → List (List ℕ) → List (List ℕ)
onto_first c [] = (c ∷ []) ∷ []
onto_first c (s ∷ ss) = (c ∷ s) ∷ ss

unfoldable pub split : List ℕ → List (List ℕ)
split [] = [] ∷ []
split (c ∷ s) = if c == 0x2C then [] ∷ split s else onto_first c (split s)

-- `&rest[..comma_pos]`
unfoldable pub before_comma : List ℕ → List ℕ
before_comma [] = []
before_comma (c ∷ s) = if c == 0x2C then [] else c ∷ before_comma s

-- `&rest[comma_pos + 1..]`, where there is a comma
unfoldable pub behind_comma : List ℕ → Option (List ℕ)
behind_comma [] = none
behind_comma (c ∷ s) = if c == 0x2C then some s else behind_comma s

abbrev pub push_some : Option ℤ → List ℤ → List ℤ
push_some none args = args
push_some (some val) args = val ∷ args

-- the loop over the arguments: what is not a number is left out
abbrev pub read_args : List (List ℕ) → List ℤ
read_args [] = []
read_args (arg ∷ rest) = push_some (read_i32 (trim arg)) (read_args rest)

abbrev pub args_of : Option (List ℕ) → List ℤ
args_of none = []
args_of (some s) = read_args (split s)

abbrev pub mode_of : ℕ → Option CommandMode
mode_of c =
    if c == 0x53
    then some set
    else (if c == 0x52 then some request else (if c == 0x4E then some new else none))

pub record Response : Type 0 where
  pub mode : CommandMode
  pub cmd_id : ℕ
  pub args : List ℤ

-- what `parse_response` does with the trimmed line
unfoldable pub read_line : List ℕ → Option Response
read_line [] = none
read_line (c ∷ []) = none
read_line (c ∷ (m ∷ rest)) =
    if not (c == 0x24) || ltb (utf8_len (c ∷ (m ∷ rest))) 3 then none else (do
      mode ← mode_of m
      cmd_id ← read_hex_u8 (before_comma rest)
      some (record { mode = mode; cmd_id = cmd_id; args = args_of (behind_comma rest) }))

unfoldable pub parse_response : List ℕ → Option Response
parse_response line = read_line (trim line)

-- the arguments of a response to `id`: its mode is New and its id that of the command
unfoldable pub response_to : CommandId → List ℕ → Option (List ℤ)
response_to id line = do
  r ← parse_response line
  if not (is_new r.mode) || not (r.cmd_id == as_hex id) then none else some r.args

-- `args.first().copied()`
abbrev pub first : List ℤ → Option ℤ
first [] = none
first (a ∷ _) = some a

unfoldable pub parse_status_response : List ℕ → Option Bool
parse_status_response line = do
  args ← response_to status line
  map_option (λ z. eq_ℤ z (pos 2)) (first args)

pub record ControlValue : Type 0 where
  pub auto : Bool
  pub value : ℤ

-- `args.len() >= 2`
abbrev pub control_value : List ℤ → Option ControlValue
control_value (a ∷ (b ∷ _)) = some (record { auto = eq_ℤ a (pos 1); value = b })
control_value _ = none

unfoldable pub parse_gain_response : List ℕ → Option ControlValue
parse_gain_response line = do args ← response_to gain line; control_value args

unfoldable pub parse_sea_response : List ℕ → Option ControlValue
parse_sea_response line = do args ← response_to sea line; control_value args

unfoldable pub parse_rain_response : List ℕ → Option ControlValue
parse_rain_response line = do args ← response_to rain line; control_value args

-- the parsers of one value
unfoldable pub parse_range_response : List ℕ → Option ℤ
parse_range_response line = do args ← response_to range line; first args

unfoldable pub parse_rezboost_response : List ℕ → Option ℤ
parse_rezboost_response line = do args ← response_to rez_boost line; first args

unfoldable pub parse_bird_mode_response : List ℕ → Option ℤ
parse_bird_mode_response line = do args ← response_to bird_mode line; first args

unfoldable pub parse_scan_speed_response : List ℕ → Option ℤ
parse_scan_speed_response line = do args ← response_to scan_speed line; first args

unfoldable pub parse_tx_channel_response : List ℕ → Option ℤ
parse_tx_channel_response line = do args ← response_to tx_channel line; first args

-- `(val * 100) / 255`
abbrev pub percent_of : ℤ → ℤ
percent_of val = div_i32 (wrap_i32 (val *ℤ pos 100)) 255

unfoldable pub parse_main_bang_response : List ℕ → Option ℤ
parse_main_bang_response line = do
  args ← response_to main_bang_size line
  map_option percent_of (first args)

-- Four arguments with 0 in front are the echo of a command; the last two cases of the source give the
-- same.
abbrev pub feature_of : List ℤ → Option (ℤ × ℤ)
feature_of (a ∷ (b ∷ (c ∷ (d ∷ _)))) = if eq_ℤ a (pos 0) then some (b, c) else some (a, b)
feature_of (a ∷ (b ∷ _)) = some (a, b)
feature_of _ = none

unfoldable pub parse_signal_processing_response : List ℕ → Option (ℤ × ℤ)
parse_signal_processing_response line = do
  args ← response_to signal_processing line
  feature_of args

pub record TargetAnalyzerState : Type 0 where
  pub enabled : Bool
  pub mode : ℤ

abbrev pub analyzer_of : List ℤ → Option TargetAnalyzerState
analyzer_of (a ∷ (b ∷ _)) = some (record { enabled = eq_ℤ a (pos 1); mode = b })
analyzer_of _ = none

unfoldable pub parse_target_analyzer_response : List ℕ → Option TargetAnalyzerState
parse_target_analyzer_response line = do args ← response_to target_analyzer line; analyzer_of args

pub record BlindSectorState : Type 0 where
  pub sector1_start : ℤ
  pub sector1_width : ℤ
  pub sector2_start : ℤ
  pub sector2_width : ℤ

abbrev sector1_enabled : BlindSectorState → Bool
sector1_enabled s = ltb_ℤ (pos 0) s.sector1_width

abbrev sector2_enabled : BlindSectorState → Bool
sector2_enabled s = ltb_ℤ (pos 0) s.sector2_width

abbrev sector1_end : BlindSectorState → ℤ
sector1_end s = rem_i32 (wrap_i32 (s.sector1_start +ℤ s.sector1_width)) 360

abbrev sector2_end : BlindSectorState → ℤ
sector2_end s = rem_i32 (wrap_i32 (s.sector2_start +ℤ s.sector2_width)) 360

-- The first argument, whether sector 2 is enabled, is not read.
abbrev pub sectors_of : List ℤ → Option BlindSectorState
sectors_of (_ ∷ (a ∷ (b ∷ (c ∷ (d ∷ _))))) =
    some (record { sector1_start = a; sector1_width = b; sector2_start = c; sector2_width = d })
sectors_of _ = none

unfoldable pub parse_blind_sector_response : List ℕ → Option BlindSectorState
parse_blind_sector_response line = do args ← response_to blind_sector line; sectors_of args
