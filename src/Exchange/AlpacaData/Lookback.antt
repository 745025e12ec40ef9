-- ===== src/Exchange/AlpacaData/Lookback.antt =====
-- apps/bot-engine/app/exchanges/alpaca_data.py: how many trading days the requested window holds.
use xbottrader.Market.Session.{weekday}
use xbottrader.Exchange.AlpacaData.{bars_per_trading_day, trading_days, calendar_days}
use xbottrader.Prelude.{
  ltb, ◌==◌, if◌then◌else◌, Bool-cases, ok, ℕ, zero, suc, ◌+◌, ◌-◌, ◌*◌, ◌/◌, ◌%◌, ◌≤◌, ◌<◌, String,
  ◌≡◌, sym, ap, ◌∙◌, inl, inr, arith,
}
use native.Mathlib.Nat.{div-add-mod', mod-lt, zero-lt-suc}

-- the weekdays among the given number of days, from a day on
abbrev pub weekdays : ℕ → ℕ → ℕ
weekdays day zero = 0
weekdays day (suc n) =
    let later = weekdays (day + 1) n in if ltb (weekday day) 5 then suc later else later

-- what a window that begins on a weekday lacks at most, in sevenths of a day
abbrev lack : ℕ → ℕ
lack w = if ltb w 5 then w * 2 else if w == 5 then 10 else 5

lack_step :
    (w w' : ℕ) → w < 7 → w' ≡ (w + 1) % 7 → 5 + lack w' ≤ (if ltb w 5 then 7 else 0) + lack w
lack_step w w' h e = ground arith

weekdays-lack : (n day : ℕ) → 5 * n ≤ 7 * weekdays day n + lack (weekday day)
weekdays-lack zero day = omega arith
weekdays-lack (suc n) day =
    let ih = weekdays-lack n (day + 1) in
    let next : weekday (day + 1) ≡ (weekday day + 1) % 7 = omega arith in
    let small : weekday day < 7 = omega arith in
    let step = lack_step (weekday day) (weekday (day + 1)) small next in ground arith

lack_bound : (w : ℕ) → lack w ≤ 10
lack_bound w = ground arith

trading_days-enough : (bars per_day : ℕ) → 0 < per_day → bars ≤ trading_days bars per_day * per_day
trading_days-enough bars zero h = absurd (omega arith)
trading_days-enough bars (suc n) h =
    let needed = (bars + n) / suc n in
    let parts = div-add-mod' (bars + n) (suc n) in
    let rest = mod-lt (bars + n) (zero-lt-suc n) in
    elim (Bool-cases (ltb needed 1)) [
      | inl low ↦
          let gone : needed ≡ 0 = ground arith in
          let none_left : 0 * suc n + (bars + n) % suc n ≡ bars + n =
            ap (λ q. q * suc n + (bars + n) % suc n) (sym gone) ∙ parts in
          rw low (omega (arith, none_left, rest))
      | inr enough ↦ rw enough (omega (arith, parts, rest))
    ]

per_day-positive :
    (timeframe : String) (per_day : ℕ) → bars_per_trading_day timeframe ≡ ok per_day → 0 < per_day
per_day-positive timeframe per_day h = ground arith

-- For a supported timeframe, the calendar days that lie wholly between the start of the requested window and now hold
-- more weekdays than the trading days that the number of bars asks for, whatever the day, and those
-- trading days have as many bars as that. The trading days are below 10 ^ 12, and `int` of a float product below
-- 2 ^ 50 is at most 1 below the whole part of the exact product.
pub lookback-holds :
    (times : ℕ → ℕ → ℕ → ℕ) (timeframe : String) (bars per_day day : ℕ)
    → ((n a b : ℕ) → n * a < b * 1125899906842624 → n * a / b ≤ times n a b + 1)
    → trading_days bars per_day < 1000000000000
    → bars_per_trading_day timeframe ≡ ok per_day
    → (bars ≤ trading_days bars per_day * per_day)
      × (trading_days bars per_day < weekdays day (calendar_days times bars per_day - 1))
lookback-holds times timeframe bars per_day day product few h =
    let needed = trading_days bars per_day in
    let window : times needed 14 10 + 5 - 1 ≡ times needed 14 10 + 4 = omega arith in
    let held = weekdays-lack (times needed 14 10 + 4) day in
    let most = lack_bound (weekday day) in
    let low = product needed 14 10 (omega (arith, few)) in
    (
      trading_days-enough bars per_day (per_day-positive timeframe per_day h),
      rw window (omega (arith, held, most, low)),
    )
