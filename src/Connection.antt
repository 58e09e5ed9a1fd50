-- ===== src/Connection.antt =====
-- The connection state machine, mayara-core/src/connection.rs: ConnectionState and
-- ConnectionManager, the Furuno login answer and the choice of the receive socket.
mod Tests
pub mod Transitions
pub mod Backoff
pub mod Login
pub mod Socket
use mayara.Prelude.{
  ℕ, ◌+◌, ◌-◌, ◌*◌, ◌^◌, Bool, true, false, List, [], ◌∷◌, if◌then◌else◌, ltb, ◌==◌, min,
}

pub data ConnectionState : Type 0 where
  disconnected connecting authenticating connected active error shutting_down : ConnectionState

-- `==` of two states (derived)
abbrev pub same_state : ConnectionState → ConnectionState → Bool
same_state disconnected disconnected = true
same_state connecting connecting = true
same_state authenticating authenticating = true
same_state connected connected = true
same_state active active = true
same_state error error = true
same_state shutting_down shutting_down = true
same_state _ _ = false

unfoldable pub can_send : ConnectionState → Bool
can_send connected = true
can_send active = true
can_send _ = false

unfoldable pub is_connecting : ConnectionState → Bool
is_connecting connecting = true
is_connecting authenticating = true
is_connecting _ = false

unfoldable pub is_established : ConnectionState → Bool
is_established connected = true
is_established active = true
is_established _ = false

unfoldable pub should_reconnect : ConnectionState → Bool
should_reconnect disconnected = true
should_reconnect error = true
should_reconnect _ = false

pub record ConnectionManager : Type 0 where
  pub state : ConnectionState
  pub failure_count : ℕ  -- u32
  pub last_state_change_ms : ℕ  -- u64
  pub last_data_ms : ℕ  -- u64
  pub has_received_data : Bool

-- `ConnectionManager::new`
unfoldable pub new : ConnectionManager
new = record {
  state = disconnected;
  failure_count = 0;
  last_state_change_ms = 0;
  last_data_ms = 0;
  has_received_data = false;
}

-- `1u64 << n` for the shifts that occur, up to 5
abbrev pub one_shl : ℕ → ℕ
one_shl n = 2 ^ n

-- The products stay far below 2^64.
unfoldable pub backoff_ms : ConnectionManager → ℕ
backoff_ms c = min (1000 * one_shl (min c.failure_count 5)) 30000

-- `saturating_sub` is the truncated `-`.
unfoldable pub time_in_state_ms : ConnectionManager → ℕ → ℕ
time_in_state_ms c now = now - c.last_state_change_ms

-- u64::MAX stands for "never".
unfoldable pub time_since_data_ms : ConnectionManager → ℕ → ℕ
time_since_data_ms c now = if c.last_data_ms == 0 then 2 ^ 64 - 1 else now - c.last_data_ms

unfoldable pub set_state : ConnectionManager → ConnectionState → ℕ → ConnectionManager
set_state c new_state now =
    if same_state c.state new_state
    then c
    else record c { state = new_state; last_state_change_ms = now }

unfoldable pub start_connecting : ConnectionManager → ℕ → ConnectionManager
unfolding set_state
start_connecting c now = if same_state c.state shutting_down then c else set_state c connecting now

unfoldable pub start_authenticating : ConnectionManager → ℕ → ConnectionManager
unfolding set_state
start_authenticating c now =
    if same_state c.state connecting then set_state c authenticating now else c

unfoldable pub connect_done : ConnectionManager → ℕ → ConnectionManager
unfolding set_state is_connecting
connect_done c now =
    if is_connecting c.state
    then (let c' = set_state c connected now in
        record c' { failure_count = 0; has_received_data = false })
    else c

unfoldable pub data_received : ConnectionManager → ℕ → ConnectionManager
unfolding set_state
data_received c now =
    let c' = if same_state c.state connected then set_state c active now else c in
    if same_state c'.state active
    then record c' { last_data_ms = now; has_received_data = true }
    else c'

-- `saturating_add(1)` on u32
abbrev pub saturating_inc : ℕ → ℕ
saturating_inc n = min (n + 1) (2 ^ 32 - 1)

unfoldable pub connect_error : ConnectionManager → ℕ → ConnectionManager
unfolding set_state
connect_error c now =
    if same_state c.state shutting_down
    then c
    else (let c' = set_state c error now in
        record c' { failure_count = saturating_inc c'.failure_count })

unfoldable pub disconnect : ConnectionManager → ℕ → ConnectionManager
unfolding set_state
disconnect c now = if same_state c.state error then set_state c disconnected now else c

unfoldable pub shutdown : ConnectionManager → ℕ → ConnectionManager
unfolding set_state
shutdown c now = set_state c shutting_down now

unfoldable pub reset : ConnectionManager → ℕ → ConnectionManager
unfolding set_state
reset c now =
    let c' = set_state c disconnected now in
    record c' { failure_count = 0; has_received_data = false }

-- The calls of the I/O layer; the methods `connected`, `error` and `disconnected` are
-- `connect_done`, `connect_error` and `disconnect` here.
pub data Call : Type 0 where
  to_connecting to_authenticating to_connected got_data failed to_disconnected stop clear : Call

unfoldable pub step : ConnectionManager → Call → ℕ → ConnectionManager
unfolding start_connecting start_authenticating connect_done data_received connect_error disconnect
    shutdown reset
step c to_connecting now = start_connecting c now
step c to_authenticating now = start_authenticating c now
step c to_connected now = connect_done c now
step c got_data now = data_received c now
step c failed now = connect_error c now
step c to_disconnected now = disconnect c now
step c stop now = shutdown c now
step c clear now = reset c now

-- A history of calls, each with its time.
unfoldable pub run : ConnectionManager → List (Call × ℕ) → ConnectionManager
run c [] = c
run c ((call, now) ∷ calls) = run (step c call now) calls
