-- ===== src/Connection/Transitions.antt =====
-- What a history of calls can make of a connection manager.
use mayara.Prelude.{
  ℕ, ◌≤◌, ◌<◌, ◌≡◌, ◌≢◌, ◌⊎◌, inl, inr, refl, ap, Bool, true, false, List, [], ◌∷◌, ◌++◌, arith,
  All, ◌^◌,
}
use mayara.Connection.{
  ConnectionState, disconnected, connecting, authenticating, connected, active, error,
  shutting_down, can_send, ConnectionManager, new, Call, to_connecting, to_authenticating,
  to_connected, got_data, failed, to_disconnected, stop, clear, step, run,
}

-- The state machine, as a table: a call that no line names leaves the state as it is.
abbrev pub next : ConnectionState → Call → ConnectionState
next s clear = disconnected
next s stop = shutting_down
next shutting_down call = shutting_down
next s to_connecting = connecting
next s failed = error
next connecting to_authenticating = authenticating
next connecting to_connected = connected
next authenticating to_connected = connected
next connected got_data = active
next error to_disconnected = disconnected
next s call = s

abbrev pub follow : ConnectionState → List (Call × ℕ) → ConnectionState
follow s [] = s
follow s ((call, now) ∷ calls) = follow (next s call) calls

state-step :
    (c : ConnectionManager) (call : Call) (now : ℕ) → (step c call now).state ≡ next c.state call
unfolding step
state-step c call now = ground arith

-- The manager's state follows the table, whatever the times, counters and flags are.
pub state-run :
    (c : ConnectionManager) (calls : List (Call × ℕ)) → (run c calls).state ≡ follow c.state calls
unfolding run
state-run c [] = refl
state-run c ((call, now) ∷ calls) = rw (← state-step c call now) (state-run (step c call now) calls)

-- What holds between two calls, where `now` is the time of the last one.
pub record Inv (c : ConnectionManager) (now : ℕ) : Type 0 where
  pub active_received : c.state ≡ active → c.has_received_data ≡ true
  pub connected_fresh : c.state ≡ connected → c.has_received_data ≡ false
  pub connected_clean : can_send c.state ≡ true → c.failure_count ≡ 0
  pub count_fits : c.failure_count < 2 ^ 32
  pub change_past : c.last_state_change_ms ≤ now
  pub data_past : c.last_data_ms ≤ now

step-Inv :
    (c : ConnectionManager) (call : Call) (before now : ℕ)
    → before ≤ now
    → Inv c before
    → Inv (step c call now) now
unfolding step can_send
step-Inv c call before now h i = ground arith

-- The times do not go back.
abbrev pub Rising : ℕ → List (Call × ℕ) → Type 0
Rising before [] = Unit {0}
Rising before ((call, now) ∷ calls) = (before ≤ now) × Rising now calls

abbrev pub last_time : ℕ → List (Call × ℕ) → ℕ
last_time t [] = t
last_time t ((call, now) ∷ calls) = last_time now calls

run_from-Inv :
    (c : ConnectionManager) (t : ℕ) (calls : List (Call × ℕ))
    → Rising t calls
    → Inv c t
    → Inv (run c calls) (last_time t calls)
unfolding run
run_from-Inv c t [] r i = i
run_from-Inv c t ((call, now) ∷ calls) r i =
    run_from-Inv (step c call now) now calls r.1 (step-Inv c call t now r.0 i)

-- After any calls at times that do not go back: data was received on the connection if it is
-- active and not if it is only connected, a usable connection has no failures counted, the count
-- fits 32 bits, and the times kept are not after the last call.
pub run-Inv : (calls : List (Call × ℕ)) → Rising 0 calls → Inv (run new calls) (last_time 0 calls)
unfolding new can_send
run-Inv calls r = run_from-Inv new 0 calls r (ground arith)

abbrev pub NotClear : Call × ℕ → Type 0
NotClear e = e.0 ≢ clear

shut_step :
    (c : ConnectionManager) (call : Call) (now : ℕ)
    → c.state ≡ shutting_down
    → call ≢ clear
    → step c call now ≡ c
unfolding step
shut_step c call now h n = ground arith

-- A manager that is shutting down is left as it is by every call but `reset`.
pub shutdown_absorbs :
    (c : ConnectionManager) (calls : List (Call × ℕ))
    → c.state ≡ shutting_down
    → All NotClear calls
    → run c calls ≡ c
unfolding run
shutdown_absorbs c [] h n = refl
shutdown_absorbs c ((call, now) ∷ calls) h n =
    rw (shut_step c call now h n.0) (shutdown_absorbs c calls h n.1)

-- The calls that leave a usable connection usable.
abbrev pub keeps_up : Call → Bool
keeps_up to_authenticating = true
keeps_up to_connected = true
keeps_up got_data = true
keeps_up to_disconnected = true
keeps_up _ = false

abbrev pub KeepsUp : Call × ℕ → Type 0
KeepsUp e = keeps_up e.0 ≡ true

-- A call of `connected`, and behind it only calls that keep the connection up.
pub record UpSince (calls : List (Call × ℕ)) : Type 0 where
  pub before : List (Call × ℕ)
  pub at_time : ℕ
  pub after : List (Call × ℕ)
  pub split : calls ≡ before ++ ((to_connected, at_time) ∷ after)
  pub quiet : All KeepsUp after

up_step :
    (c : ConnectionManager) (call : Call) (now : ℕ)
    → can_send (step c call now).state ≡ true
    → ((keeps_up call ≡ true) × (can_send c.state ≡ true)) ⊎ (call ≡ to_connected)
unfolding step can_send
up_step c call now h = ground arith

UpSince-cons : (e : Call × ℕ) (calls : List (Call × ℕ)) → UpSince calls → UpSince (e ∷ calls)
UpSince-cons e calls u = record {
  before = e ∷ u.before;
  at_time = u.at_time;
  after = u.after;
  split = ap (λ l. e ∷ l) u.split;
  quiet = u.quiet;
}

up_history :
    (c : ConnectionManager) (calls : List (Call × ℕ))
    → can_send (run c calls).state ≡ true
    → (All KeepsUp calls × (can_send c.state ≡ true)) ⊎ UpSince calls
unfolding run
up_history c [] h = inl (tt, h)
up_history c ((call, now) ∷ calls) h = elim (up_history (step c call now) calls h) [
  | inr later ↦ inr (UpSince-cons (call, now) calls later)
  | inl (quiet, up) ↦ elim (up_step c call now up) [
    | inl (keeps, was_up) ↦ inl ((keeps, quiet), was_up)
    | inr joined ↦ inr (record {
      before = [];
      at_time = now;
      after = calls;
      split = ap (λ k. (k, now) ∷ calls) joined;
      quiet = quiet;
    })
  ]
]

-- Commands can be sent only after a call of `connected` with no failure, shutdown, reset or new
-- attempt since.
pub can_send_needs_connected :
    (calls : List (Call × ℕ)) → can_send (run new calls).state ≡ true → UpSince calls
unfolding new can_send
can_send_needs_connected calls h = elim (up_history new calls h) [
  | inl (_, up) ↦ cc
  | inr since ↦ since
]
