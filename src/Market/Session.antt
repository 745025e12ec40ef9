-- ===== src/Market/Session.antt =====
-- packages/xbt-core/xbt_core/market/session.py: when a venue's market is open. A date is its ordinal
-- of Python's `datetime`, a time of day the milliseconds since midnight, and the conversions of
-- `zoneinfo` are a parameter.
use xbottrader.Prelude.{
  ltb, leb, ◌==◌, if◌then◌else◌, ℕ, zero, suc, ◌+◌, ◌-◌, ◌*◌, ◌/◌, ◌%◌, String, Bool, true, false,
  not, ◌&&◌, ◌||◌, Option, none, some, List, [], ◌∷◌, str_eq,
}

pub data AssetClass : Type 0 where
  crypto us_equity : AssetClass

-- The protocol `MarketSession`.
pub record MarketSession : Type 0 where
  pub is_open : ℕ → Bool
  pub next_open_ms : ℕ → Option ℕ

-- A local date and time.
pub record LocalTime : Type 0 where
  pub day : ℕ
  pub time : ℕ

-- `_to_et`, and `datetime.combine(day, time, tzinfo=_ET).timestamp() * 1000`.
pub record TimeZone : Type 0 where
  pub local_of : ℕ → LocalTime
  pub ms_of : LocalTime → ℕ

-- `date(…).toordinal()` after 1 January of year 1, from the length of the months before
abbrev is_leap : ℕ → Bool
is_leap year = year % 4 == 0 && (not (year % 100 == 0) || year % 400 == 0)

abbrev month_lengths : Bool → List ℕ
month_lengths leap =
    31 ∷ (if leap then 29 else 28) ∷ 31 ∷ 30 ∷ 31 ∷ 30 ∷ 31 ∷ 31 ∷ 30 ∷ 31 ∷ 30 ∷ 31 ∷ []

abbrev sum_of_first : ℕ → List ℕ → ℕ
sum_of_first n [] = 0
sum_of_first zero (x ∷ xs) = 0
sum_of_first (suc n) (x ∷ xs) = x + sum_of_first n xs

abbrev pub date : ℕ → ℕ → ℕ → ℕ
date year month day =
    let y = year - 1 in
    (y * 365 + y / 4 - y / 100 + y / 400)
    + sum_of_first (month - 1) (month_lengths (is_leap year))
    + day

-- `date.weekday`: 0 is Monday
abbrev pub weekday : ℕ → ℕ
weekday day = (day + 6) % 7

-- `_OPEN` and `_CLOSE`
abbrev pub opening_time : ℕ
opening_time = (9 * 60 + 30) * 60000

abbrev pub closing_time : ℕ
closing_time = 16 * 60 * 60000

-- `_NYSE_HOLIDAYS`
unfoldable pub nyse_holidays : List ℕ
nyse_holidays =
    date 2026 1 1
    ∷ date 2026 1 19
    ∷ date 2026 2 16
    ∷ date 2026 4 3
    ∷ date 2026 5 25
    ∷ date 2026 6 19
    ∷ date 2026 7 3
    ∷ date 2026 9 7
    ∷ date 2026 11 26
    ∷ date 2026 12 25
    ∷ date 2027 1 1
    ∷ date 2027 1 18
    ∷ date 2027 2 15
    ∷ date 2027 3 26
    ∷ date 2027 5 31
    ∷ date 2027 6 18
    ∷ date 2027 7 5
    ∷ date 2027 9 6
    ∷ date 2027 11 25
    ∷ date 2027 12 24
    ∷ []

abbrev pub is_one_of : ℕ → List ℕ → Bool
is_one_of day [] = false
is_one_of day (other ∷ days) = day == other || is_one_of day days

unfoldable pub is_trading_day : ℕ → Bool
is_trading_day day = ltb (weekday day) 5 && not (is_one_of day nyse_holidays)

-- `CryptoSession`
abbrev pub crypto_session : MarketSession
crypto_session = record { is_open = λ ts_ms. true; next_open_ms = λ ts_ms. none }

module _ (zone : TimeZone) where
  abbrev pub opening_ms : ℕ → ℕ
  opening_ms day = zone.ms_of (record { day = day; time = opening_time })

  -- `UsEquitySession.is_open`
  unfoldable pub is_open : ℕ → Bool
  is_open ts_ms =
      let et = zone.local_of ts_ms in
      if not (is_trading_day et.day)
      then false
      else leb opening_time et.time && ltb et.time closing_time

  -- the loop of `UsEquitySession.next_open_ms`, over the given number of days
  unfoldable pub scan_days : ℕ → ℕ → ℕ → Option ℕ
  scan_days ts_ms zero day = none
  scan_days ts_ms (suc n) day =
      let rest = scan_days ts_ms n (day + 1) in
      if is_trading_day day && ltb ts_ms (opening_ms day) then some (opening_ms day) else rest

  unfoldable pub next_open_ms : ℕ → Option ℕ
  unfolding scan_days
  next_open_ms ts_ms = scan_days ts_ms 366 (zone.local_of ts_ms).day

  abbrev pub us_equity_session : MarketSession
  us_equity_session = record { is_open = is_open; next_open_ms = next_open_ms }

-- `asset_class_for`, and the set `_EQUITY_VENUES`
abbrev pub asset_class_for : String → AssetClass
asset_class_for venue =
    if str_eq venue "alpaca" || str_eq venue "alpaca-paper" then us_equity else crypto

abbrev session_of : TimeZone → AssetClass → MarketSession
session_of zone us_equity = us_equity_session zone
session_of zone crypto = crypto_session

abbrev pub session_for : TimeZone → String → MarketSession
session_for zone venue = session_of zone (asset_class_for venue)
