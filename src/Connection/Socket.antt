-- ===== src/Connection/Socket.antt =====
-- ReceiveSocketType: multicast and broadcast are both tried until one works or fails.
use mayara.Prelude.{◌≡◌, Bool, true, false, Option, none, some, List, [], ◌∷◌, arith}

pub data ReceiveSocketType : Type 0 where
  both multicast broadcast : ReceiveSocketType

unfoldable pub try_multicast : ReceiveSocketType → Bool
try_multicast broadcast = false
try_multicast _ = true

unfoldable pub try_broadcast : ReceiveSocketType → Bool
try_broadcast multicast = false
try_broadcast _ = true

unfoldable pub multicast_working : ReceiveSocketType → ReceiveSocketType
multicast_working s = multicast

unfoldable pub broadcast_working : ReceiveSocketType → ReceiveSocketType
broadcast_working s = broadcast

unfoldable pub multicast_failed : ReceiveSocketType → ReceiveSocketType
multicast_failed both = broadcast
multicast_failed s = s

unfoldable pub broadcast_failed : ReceiveSocketType → ReceiveSocketType
broadcast_failed both = multicast
broadcast_failed s = s

pub data Report : Type 0 where
  multicast_works broadcast_works multicast_fails broadcast_fails : Report

unfoldable pub report : ReceiveSocketType → Report → ReceiveSocketType
unfolding multicast_working broadcast_working multicast_failed broadcast_failed
report s multicast_works = multicast_working s
report s broadcast_works = broadcast_working s
report s multicast_fails = multicast_failed s
report s broadcast_fails = broadcast_failed s

unfoldable pub reports : ReceiveSocketType → List Report → ReceiveSocketType
reports s [] = s
reports s (r ∷ rs) = reports (report s r) rs

-- the socket of the last report of a working one
abbrev pub last_working : List Report → Option ReceiveSocketType
last_working [] = none
last_working (r ∷ rs) = elim (last_working rs) [
  | some s ↦ some s
  | none ↦ elim r [
    | multicast_works ↦ some multicast
    | broadcast_works ↦ some broadcast
    | multicast_fails ↦ none
    | broadcast_fails ↦ none
  ]
]

-- the other socket than that of the first failure
abbrev pub first_fallback : List Report → ReceiveSocketType
first_fallback [] = both
first_fallback (multicast_fails ∷ rs) = broadcast
first_fallback (broadcast_fails ∷ rs) = multicast
first_fallback (multicast_works ∷ rs) = first_fallback rs
first_fallback (broadcast_works ∷ rs) = first_fallback rs

-- The choice that a list of reports means, where `s` was chosen before.
abbrev pub choice : ReceiveSocketType → List Report → ReceiveSocketType
choice s rs = elim (last_working rs) [
  | some w ↦ w
  | none ↦ elim s [ both ↦ first_fallback rs | multicast ↦ multicast | broadcast ↦ broadcast ]
]

reports_lem : (s : ReceiveSocketType) (rs : List Report) → reports s rs ≡ choice s rs
unfolding reports report
reports_lem s [] = ground arith
reports_lem s (r ∷ rs) = ground (arith, reports_lem (report s r) rs)

-- A socket that was reported to work last is used; with no such report the first failure decides,
-- for the other socket; and with no report at all both are tried.
reports_choose : (rs : List Report) → reports both rs ≡ choice both rs
reports_choose rs = reports_lem both rs
