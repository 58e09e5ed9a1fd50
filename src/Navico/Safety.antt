-- ===== src/Navico/Safety.antt =====
-- No packet makes a parser panic.
use mayara.Prelude.{
  ℕ, ◌≡◌, List, Option, arith, length, take, length-take, ◌==◌, not, ◌&&◌, leb, leb→le, Bool-cases,
  inl, inr, if◌then◌else◌,
}
use mayara.Packet.{invalid_packet, Outcome, err, slice_at}
use mayara.Packet.Struct.{Bincode, int_field, Safe-deserialize}
use mayara.Packet.Head.{Safe-head}
use mayara.Packet.Safe.{Safe, Safe-ok, Safe-err, Safe-bind, Safe-if, Safe-ok_or}
use mayara.Navico.Reports.{
  marked, read_report, parse_report_01, parse_report_02, parse_report_03, parse_report_04,
  parse_report_06_68, parse_report_06_74, parse_report_08, doppler_of, report_08_extended,
}
use mayara.Navico.Spoke.{
  checked, parse_4g_spoke_header, parse_br24_spoke_header, br4g_spoke_header, br24_spoke_header,
}

module _ {A : Type 0} where
  Safe-marked : (what : ℕ) (cs : List (List ℕ)) (r : Outcome A) → Safe r → Safe (marked what cs r)
  unfolding marked
  Safe-marked what cs r h = Safe-if _ _ _ (Safe-err _) h

  Safe-read_report :
      (bin : Bincode) (what : ℕ) (ws bs : List ℕ) (f : List (List ℕ) → Outcome A)
      → ((cs : List (List ℕ)) → Safe (f cs))
      → Safe (read_report bin what ws bs f)
  unfolding read_report
  Safe-read_report bin what ws bs f h =
      Safe-head bin ws bs _ (λ cs. Safe-marked what cs (f cs) (h cs))

Safe-checked : (cs : List (List ℕ)) (r : Outcome (ℕ × ℕ × Option ℕ)) → Safe r → Safe (checked cs r)
unfolding checked
Safe-checked cs r h =
    let b = not (int_field 0 cs == 24) in
    let c = not (int_field 1 cs == 0x02) && not (int_field 1 cs == 0x12) in
    let refused = err invalid_packet in
    Safe-if b refused (if c then refused else r) (Safe-err _) (Safe-if c refused r (Safe-err _) h)

module _ (bin : Bincode) (bs : List ℕ) where
  Safe-doppler_of : Safe (doppler_of bin bs)
  unfolding doppler_of slice_at
  Safe-doppler_of = elim (Bool-cases (leb 21 (length bs))) [
    | inr e ↦ rw e (Safe-ok _)
    | inl e ↦
        let n : length (take 21 bs) ≡ 21 =
          omega (arith, length-take 21 bs, leb→le 21 (length bs) e) in
        rw e (
          Safe-bind _ _ (Safe-deserialize bin report_08_extended (take 21 bs) (omega (arith, n)))
            (λ cs. Safe-ok _))
  ]

  Safe-parse_report_01 : Safe (parse_report_01 bin bs)
  unfolding parse_report_01
  Safe-parse_report_01 = Safe-read_report bin _ _ bs _ (λ cs. Safe-ok_or _ _)

  Safe-parse_report_02 : Safe (parse_report_02 bin bs)
  unfolding parse_report_02
  Safe-parse_report_02 = Safe-read_report bin _ _ bs _ (λ cs. Safe-ok _)

  Safe-parse_report_03 : Safe (parse_report_03 bin bs)
  unfolding parse_report_03
  Safe-parse_report_03 = Safe-read_report bin _ _ bs _ (λ cs. Safe-ok _)

  Safe-parse_report_04 : Safe (parse_report_04 bin bs)
  unfolding parse_report_04
  Safe-parse_report_04 = Safe-read_report bin _ _ bs _ (λ cs. Safe-ok _)

  Safe-parse_report_06_68 : Safe (parse_report_06_68 bin bs)
  unfolding parse_report_06_68
  Safe-parse_report_06_68 = Safe-read_report bin _ _ bs _ (λ cs. Safe-ok _)

  Safe-parse_report_06_74 : Safe (parse_report_06_74 bin bs)
  unfolding parse_report_06_74
  Safe-parse_report_06_74 = Safe-read_report bin _ _ bs _ (λ cs. Safe-ok _)

  Safe-parse_report_08 : Safe (parse_report_08 bin bs)
  unfolding parse_report_08
  Safe-parse_report_08 =
      Safe-read_report bin _ _ bs _ (λ cs. Safe-bind _ _ Safe-doppler_of (λ d. Safe-ok _))

  -- Whatever the packet, none of the report parsers panics: no slice is out of range, and no struct is
  -- read from fewer bytes than it has.
  pub parse_report_Safe :
      Safe (parse_report_01 bin bs)
      × Safe (parse_report_02 bin bs)
      × Safe (parse_report_03 bin bs)
      × Safe (parse_report_04 bin bs)
      × Safe (parse_report_06_68 bin bs)
      × Safe (parse_report_06_74 bin bs)
      × Safe (parse_report_08 bin bs)
  parse_report_Safe = (
    Safe-parse_report_01, Safe-parse_report_02, Safe-parse_report_03, Safe-parse_report_04,
    Safe-parse_report_06_68, Safe-parse_report_06_74, Safe-parse_report_08,
  )

  Safe-parse_4g_spoke_header : Safe (parse_4g_spoke_header bin bs)
  unfolding parse_4g_spoke_header
  Safe-parse_4g_spoke_header =
      Safe-head bin br4g_spoke_header bs _ (λ cs. Safe-checked cs _ (Safe-ok _))

  Safe-parse_br24_spoke_header : (scale : ℕ → ℕ) → Safe (parse_br24_spoke_header bin scale bs)
  unfolding parse_br24_spoke_header
  Safe-parse_br24_spoke_header scale =
      Safe-head bin br24_spoke_header bs _ (λ cs. Safe-checked cs _ (Safe-ok _))
