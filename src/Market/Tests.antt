-- ===== src/Market/Tests.antt =====
-- The calendar at concrete dates.
use xbottrader.Market.Opening.{IsDay, IsZone, next_open_ms-IsNext}
use xbottrader.Prelude.{ℕ, ◌+◌, ◌-◌, ◌*◌, ◌/◌, ◌%◌, ◌≤◌, ◌<◌, ◌≡◌, refl, true, some, arith}
use xbottrader.Market.Session.{
  TimeZone, date, opening_time, nyse_holidays, is_trading_day, opening_ms, is_open, scan_days,
  next_open_ms,
}

new_year : date 2026 1 1 ≡ 739617
new_year = refl

-- a place five hours behind UTC all the year; its clock shows the last day of 1969 at the epoch
abbrev behind : TimeZone
behind = record {
  local_of =
      λ ts. record { day = 719162 + (ts + 68400000) / 86400000; time = (ts + 68400000) % 86400000 };
  ms_of = λ local. (local.day - 719163) * 86400000 + local.time + 18000000;
}

behind-IsZone : IsZone behind
behind-IsZone = record {
  local_opening = λ day in_range.
      let at_day : 719162
            + ((day - 719163) * 86400000 + opening_time + 18000000 + 68400000) / 86400000
          ≡ day =
        omega (arith, in_range.0) in
      let at_open : ((day - 719163) * 86400000 + opening_time + 18000000 + 68400000) % 86400000
          ≡ opening_time =
        omega (arith, in_range.0) in
      rw (at_day, at_open) refl;
  opening_after = λ d e hd he lt. omega (arith, hd.0, he.0);
  before_later = λ ts day hd lt. omega (arith, hd.0);
  after_earlier = λ ts day hd lt. omega (arith, hd.0);
}

-- from Thursday 24 December 2026, 10:00, over Christmas and the weekend to Monday
over_christmas :
    next_open_ms behind (behind.ms_of (record { day = date 2026 12 24; time = 36000000 }))
    ≡ some (behind.ms_of (record { day = date 2026 12 28; time = opening_time }))
unfolding next_open_ms scan_days is_trading_day nyse_holidays
over_christmas = refl

next_open_ms-IsNext_example :
    (opening : ℕ) × (next_open_ms behind 1800000000000 ≡ some opening)
    × (1800000000000 < opening)
    × (is_open behind opening ≡ true)
    × ((day : ℕ)
        → IsDay day
        → is_trading_day day ≡ true
        → 1800000000000 < opening_ms behind day
        → opening ≤ opening_ms behind day)
next_open_ms-IsNext_example =
    next_open_ms-IsNext behind behind-IsZone 1800000000000 (omega arith) (omega arith)
