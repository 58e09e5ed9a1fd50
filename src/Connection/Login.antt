-- ===== src/Connection/Login.antt =====
-- The answer to the Furuno login, from which the command port is computed.
use mayara.Prelude.{
  ℕ, ◌+◌, ◌*◌, ◌%◌, ◌^◌, ◌≤◌, ◌<◌, ◌≡◌, ◌⊎◌, inl, inr, Option, none, some, List, [], ◌∷◌,
  if◌then◌else◌, arith, bytes_eq, bytes_eq_sound, not, ◌≢◌, ap, Bool-cases, dec_lt,
}

-- BASE_PORT
abbrev pub base_port : ℕ
base_port = 10000

-- LOGIN_RESPONSE_HEADER
abbrev pub login_response_header : List ℕ
login_response_header = 0x09 ∷ 0x01 ∷ 0x00 ∷ 0x0c ∷ 0x01 ∷ 0x00 ∷ 0x00 ∷ 0x00 ∷ []

-- `parse_login_response`, at the first two of the four port bytes (the others are not read).
-- The sum is of u16 and wraps where overflow checks are off.
unfoldable pub parse_login_response : List ℕ → ℕ → ℕ → Option ℕ
parse_login_response header b0 b1 =
    if not (bytes_eq header login_response_header)
    then none
    else some ((((base_port + b0 * 2 ^ 8) % 2 ^ 16) + b1) % 2 ^ 16)

-- What the two bytes say, or a port that has wrapped past 65535.
abbrev pub Assigned : ℕ → ℕ → ℕ → Type 0
Assigned b0 b1 port =
    (port ≡ base_port + b0 * 256 + b1) × (port < 65536)
    ⊎ (65536 ≤ base_port + b0 * 256 + b1) × (port < base_port)

assigned_port : ℕ → ℕ → ℕ
assigned_port b0 b1 = ((base_port + b0 * 2 ^ 8) % 2 ^ 16 + b1) % 2 ^ 16

assigned : (b0 b1 : ℕ) → b0 < 256 → b1 < 256 → Assigned b0 b1 (assigned_port b0 b1)
unfolding assigned_port
assigned b0 b1 h0 h1 = elim (dec_lt (base_port + b0 * 256 + b1) 65536) [
  | yes fits ↦ inl (omega arith, omega arith)
  | no wraps ↦ inr (omega arith, omega arith)
]

-- An answer is accepted exactly if it starts with the expected header. The port is then 10000 plus
-- the big-endian number of the two bytes, unless that passes 65535: then it wraps to a number below
-- 10000.
pub login_port :
    (header : List ℕ) (b0 b1 : ℕ)
    → b0 < 256
    → b1 < 256
    → (header ≡ login_response_header)
        × ((port : ℕ) × (parse_login_response header b0 b1 ≡ some port) × Assigned b0 b1 port)
      ⊎ (header ≢ login_response_header) × (parse_login_response header b0 b1 ≡ none)
unfolding parse_login_response assigned_port
login_port header b0 b1 h0 h1 = elim (Bool-cases (bytes_eq header login_response_header)) [
  | inl same ↦ inl (
    bytes_eq_sound header login_response_header same,
    (assigned_port b0 b1, rw same, assigned b0 b1 h0 h1),
  )
  | inr other ↦ inr ((λ e. cc (ap (λ l. bytes_eq l login_response_header) e)), rw other)
]
