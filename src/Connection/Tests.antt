-- ===== src/Connection/Tests.antt =====
-- Histories of calls, answers and reports, on which the theorems on connections are applied.
use mayara.Prelude.{ℕ, ◌≡◌, ◌≢◌, ◌⊎◌, refl, true, none, some, List, [], ◌∷◌, arith}
use mayara.Connection.{
  ConnectionManager, active, shutting_down, can_send, new, Call, to_connecting, to_authenticating,
  to_connected, got_data, failed, to_disconnected, run, backoff_ms, step,
}
use mayara.Connection.Transitions.{
  state-run, run-Inv, can_send_needs_connected, shutdown_absorbs, Inv, UpSince,
}
use mayara.Connection.Backoff.{backoff-retries, retries}
use mayara.Connection.Login.{login_port, login_response_header, parse_login_response, Assigned}
use mayara.Connection.Socket.{}

-- an attempt that fails, and one that succeeds
abbrev calls : List (Call × ℕ)
calls =
    (to_connecting, 100)
    ∷ (failed, 200)
    ∷ (to_disconnected, 1300)
    ∷ (to_connecting, 2500)
    ∷ (to_authenticating, 2600)
    ∷ (to_connected, 2700)
    ∷ (got_data, 3000)
    ∷ []

state-run_example : (run new calls).state ≡ active
unfolding new
state-run_example = state-run new calls

run-Inv_example : Inv (run new calls) 3000
run-Inv_example = run-Inv calls (omega arith)

can_send_needs_connected_example : UpSince calls
unfolding can_send run new step
can_send_needs_connected_example = can_send_needs_connected calls refl

abbrev stopped : ConnectionManager
stopped = record {
  state = shutting_down;
  failure_count = 2;
  last_state_change_ms = 50;
  last_data_ms = 20;
  has_received_data = true;
}

shutdown_absorbs_example : run stopped ((to_connecting, 60) ∷ (got_data, 70) ∷ []) ≡ stopped
shutdown_absorbs_example =
    shutdown_absorbs stopped ((to_connecting, 60) ∷ (got_data, 70) ∷ []) refl
      ((λ e. cc), ((λ e. cc), tt))

backoff-retries_example : backoff_ms (retries new (200 ∷ 1300 ∷ 3400 ∷ [])) ≡ 8000
unfolding new
backoff-retries_example = backoff-retries new (200 ∷ 1300 ∷ 3400 ∷ []) (λ e. cc) refl (omega arith)

login_port_example :
    (login_response_header ≡ login_response_header)
      × ((port : ℕ) × (parse_login_response login_response_header 1 2 ≡ some port)
          × Assigned 1 2 port)
    ⊎ (login_response_header ≢ login_response_header)
      × (parse_login_response login_response_header 1 2 ≡ none)
login_port_example = login_port login_response_header 1 2 (omega arith) (omega arith)
