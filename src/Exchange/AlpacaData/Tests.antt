-- ===== src/Exchange/AlpacaData/Tests.antt =====
-- Windows and rows.
use xbottrader.Decimal.Whole.{ℤ, whole}
use xbottrader.Market.Session.{date, nyse_holidays, is_trading_day}
use xbottrader.Http.{HttpResponse}
use xbottrader.Exchange.AlpacaData.Lookback.{weekdays, lookback-holds}
use xbottrader.Exchange.AlpacaData.{
  alpaca_credentials, trading_days, calendar_days, parse_bar, parse_rows, parse_bars, read_bars,
  request_bars,
}
use xbottrader.Strategy.Value.{Value, number, list, dict, no_items, item, end, field}
use xbottrader.Prelude.{
  if◌then◌else◌, type_error, equity_data_error, Result, raised, ok, ℕ, zero, suc, ◌+◌, ◌-◌, ◌*◌,
  ◌/◌, ◌≤◌, ◌<◌, String, ◌≡◌, refl, Option, none, some, [], ◌∷◌, arith,
}

-- the exact product
abbrev exact : ℕ → ℕ → ℕ → ℕ
exact n a b = n * a / b

lookback-holds_example :
    (500 ≤ trading_days 500 1 * 1)
    × (trading_days 500 1 < weekdays (date 2026 12 31) (calendar_days exact 500 1 - 1))
lookback-holds_example =
    lookback-holds exact "1d" 500 1 (date 2026 12 31) (λ n a b h. omega arith) (omega arith) refl

-- the trading days among the given number of days, from a day on
abbrev open_days : ℕ → ℕ → ℕ
open_days day zero = 0
open_days day (suc n) =
    let later = open_days (day + 1) n in if is_trading_day day then suc later else later

-- the daily window for 250 bars that begins on 5 January 2026 holds 246 trading days
holidays_missing : open_days (date 2026 1 5) (calendar_days exact 250 1 - 1) ≡ 246
unfolding is_trading_day nyse_holidays
holidays_missing = refl

abbrev keys : String → Option String
keys name = some "k"

abbrev bar_of : ℕ → Value ℤ
bar_of t = dict (
    field "t" (number t) (
      field "o" (number 1) (
        field "h" (number 2)
          (field "l" (number 1) (field "c" (number 2) (field "v" (number 9) end))))))

abbrev as_number : Value ℤ → Result ℕ
as_number (number n) = ok n
as_number v = raised (type_error "no number")

-- newest first from the service, oldest first to the caller
two_bars :
    request_bars as_number as_number keys exact
      (λ days. "start")
      (λ q. some (record {
        status_code = 200;
        json = ok (field "bars" (list (item (bar_of 20) (item (bar_of 10) no_items))) end);
      }))
      "AAPL"
      "1h"
      2
    ≡ ok ((10 ∷ 1 ∷ 2 ∷ 1 ∷ 2 ∷ 9 ∷ []) ∷ (20 ∷ 1 ∷ 2 ∷ 1 ∷ 2 ∷ 9 ∷ []) ∷ [])
unfolding request_bars alpaca_credentials read_bars parse_bars parse_rows parse_bar
two_bars = refl

abbrev no_reply : Option (HttpResponse ℤ)
no_reply = none

no_keys :
    request_bars as_number as_number
      (λ name. none)
      exact
      (λ days. "start")
      (λ q. no_reply)
      "AAPL"
      "1h"
      2
    ≡ raised (equity_data_error "Alpaca market-data keys not configured")
unfolding request_bars alpaca_credentials
no_keys = refl
