-- ===== src/Garmin/Safety.antt =====
-- The behaviour of the report parser on every packet.
use mayara.Prelude.{ℕ, ◌≤◌, inl, inr, ◌&&◌, List, arith, length, ltb, leb, drop, ◌==◌, Bool-cases}
use mayara.Packet.Safe.{
  Safe, Safe-ok, Safe-err, Safe-bind, Safe-at_least, Safe-byte_at, Safe-word_at, safe_rules,
}
use mayara.Packet.Struct.{Bincode}
use mayara.Packet.Head.{Safe-head}
use mayara.Garmin.{Float32, value_of, report_of, parse_report, parse_spoke_header, spoke_header}

Safe-value_of : (len : ℕ) (bs : List ℕ) → len ≤ length bs → Safe (value_of len bs)
unfolding value_of
Safe-value_of len bs h = elim (Bool-cases (len == 1)) [
  | inl e ↦ rw e (Safe-byte_at 0 bs (ground arith))
  | inr e ↦ elim (Bool-cases (len == 2)) [
    | inl f ↦ rw (e, f) (Safe-word_at 2 0 bs (ground arith))
    | inr f ↦ elim (Bool-cases (len == 4)) [
      | inl g ↦ rw (e, f, g) (Safe-word_at 4 0 bs (ground arith))
      | inr g ↦ rw (e, f, g) (Safe-ok 0)
    ]
  ]
]

Safe-report_of :
    (fl : Float32) (t len value : ℕ) (bs : List ℕ)
    → len ≤ length bs
    → Safe (report_of fl t len value bs)
unfolding report_of
Safe-report_of fl t len value bs h = elim (Bool-cases ((t == 0x099b) && leb 80 len)) [
  | inl e ↦ let n : 80 ≤ length bs = ground arith in rw e (search (safe_rules, n) depth 12)
  | inr e ↦ rw e (search (safe_rules, h) depth 12)
]

-- Whatever the packet, the report parser comes back with a report or an error: it reads no byte that the
-- length in the packet, checked against its own, does not vouch for.
pub parse_report-Safe : (fl : Float32) (bs : List ℕ) → Safe (parse_report fl bs)
unfolding parse_report
parse_report-Safe fl bs = Safe-at_least 9 bs _ (λ n.
    Safe-bind _ _ (Safe-word_at 4 0 bs (omega arith)) (λ t.
      Safe-bind _ _ (Safe-word_at 4 4 bs (omega arith)) (λ len.
        elim (Bool-cases (ltb (length (drop 8 bs)) len)) [
          | inl short ↦ rw short (Safe-err _)
          | inr room ↦
              let h : len ≤ length (drop 8 bs) = ground arith in
              rw room (
                Safe-bind _ _ (Safe-value_of len (drop 8 bs) h)
                  (λ v. Safe-report_of fl t len v (drop 8 bs) h))
        ])))

parse_spoke_header-Safe : (bin : Bincode) (bs : List ℕ) → Safe (parse_spoke_header bin bs)
unfolding parse_spoke_header
parse_spoke_header-Safe bin bs = Safe-head bin spoke_header bs _ (λ cs. Safe-ok _)
