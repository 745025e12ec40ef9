-- ===== src/Exchange/AlpacaData.antt =====
-- apps/bot-engine/app/exchanges/alpaca_data.py: bars of stocks from Alpaca's data API. The environment, the
-- HTTP client, the readings of numbers and times and the float product are parameters; `F` is the type
-- of floats.
pub mod Lookback
mod Tests
use xbottrader.Exchange.CcxtLive.{is_truthy}
use xbottrader.Http.{HttpResponse}
use xbottrader.Strategy.Value.{
  Value, list, dict, Values, no_items, item, Fields, find_key, get_item,
}
use xbottrader.Decimal.{Decimal}
use xbottrader.Prelude.{
  ltb, leb, if◌then◌else◌, value_error, key_error, type_error, equity_data_error, Result, raised,
  ok, raise_if, ◌>>=◌, ◌>>◌, ℕ, zero, suc, ◌+◌, ◌/◌, String, not, Option, none, some, List, [], ◌∷◌,
  str_eq,
}
use mathlib.Core.List.{reverse}

-- `_alpaca_timeframe`
abbrev pub alpaca_timeframe : String → Result String
alpaca_timeframe timeframe =
    if str_eq timeframe "1m"
    then ok "1Min"
    else if str_eq timeframe "5m"
    then ok "5Min"
    else if str_eq timeframe "1h"
    then ok "1Hour"
    else if str_eq timeframe "1d"
    then ok "1Day"
    else raised (value_error "unsupported timeframe for equities")

-- `_BARS_PER_TRADING_DAY[timeframe]`
abbrev pub bars_per_trading_day : String → Result ℕ
bars_per_trading_day timeframe =
    if str_eq timeframe "1m"
    then ok 390
    else if str_eq timeframe "5m"
    then ok 78
    else if str_eq timeframe "1h"
    then ok 7
    else if str_eq timeframe "1d"
    then ok 1
    else raised (key_error "timeframe")

-- a variable of the environment that is set and not empty
abbrev pub set_variable : Option String → Result String
set_variable none = raised (equity_data_error "Alpaca market-data keys not configured")
set_variable (some s) =
    if str_eq s ""
    then raised (equity_data_error "Alpaca market-data keys not configured")
    else ok s

-- `_alpaca_credentials`
unfoldable pub alpaca_credentials : (String → Option String) → Result (String × String)
alpaca_credentials environ = do
  key ← set_variable (environ "XBT_ALPACA_DATA_KEY")
  secret ← set_variable (environ "XBT_ALPACA_DATA_SECRET")
  ok (key, secret)

-- `max(1, -(-limit // per_day))`
abbrev pub trading_days : ℕ → ℕ → ℕ
trading_days limit zero = 1
trading_days limit (suc n) = let needed = (limit + n) / suc n in if ltb needed 1 then 1 else needed

-- `int(trading_days * 1.4) + 5`, where `times n a b` is `int(n * x)` for the float literal x of a / b
abbrev pub calendar_days : (ℕ → ℕ → ℕ → ℕ) → ℕ → ℕ → ℕ
calendar_days times limit per_day = times (trading_days limit per_day) 14 10 + 5

-- a request for bars
pub record BarsRequest : Type 0 where
  pub symbol : String
  pub timeframe : String
  pub limit : ℕ
  pub start : String
  pub key : String
  pub secret : String

module _ {D F : Type 0} (iso_to_ms : Value D → Result F) (to_float : Value D → Result F) where
  -- `float(b[key])`
  abbrev pub float_item : String → Fields D → Result F
  float_item key fields = get_item key fields >>= to_float

  -- a row of `_parse_bars`
  unfoldable pub parse_bar : Value D → Result (List F)
  parse_bar (dict fields) = do
    t ← get_item "t" fields >>= iso_to_ms
    o ← float_item "o" fields
    h ← float_item "h" fields
    l ← float_item "l" fields
    c ← float_item "c" fields
    v ← float_item "v" fields
    ok (t ∷ o ∷ h ∷ l ∷ c ∷ v ∷ [])
  parse_bar v = raised (type_error "no item of this name")

  unfoldable pub parse_rows : Values D → Result (List (List F))
  unfolding parse_bar
  parse_rows no_items = ok []
  parse_rows (item v vs) = do row ← parse_bar v; rows ← parse_rows vs; ok (row ∷ rows)

  -- the rows of a value that is no empty one
  abbrev pub rows_of : Value D → Result (List (List F))
  rows_of (list vs) = parse_rows vs
  rows_of v = raised (type_error "no bars")

  abbrev pub rows_or_none : ⦃d : Decimal D⦄ → Option (Value D) → Result (List (List F))
  rows_or_none none = ok []
  rows_or_none (some v) = if is_truthy v then rows_of v else ok []

  -- `_parse_bars`
  unfoldable pub parse_bars : ⦃d : Decimal D⦄ → Fields D → Result (List (List F))
  unfolding parse_rows
  parse_bars payload = rows_or_none (find_key "bars" payload)

  -- what follows the request
  unfoldable pub read_bars : ⦃d : Decimal D⦄ → Option (HttpResponse D) → Result (List (List F))
  unfolding parse_bars
  read_bars none = raised (equity_data_error "could not reach Alpaca data API")
  read_bars (some resp) = do
    raise_if (leb 400 resp.status_code) (equity_data_error "Alpaca data API returned an error")
    payload ← resp.json
    rows ← parse_bars payload
    ok (reverse rows)

  -- `_request_bars`; `since` is the text of the time that lies a number of days back
  unfoldable pub request_bars :
      ⦃d : Decimal D⦄
      → (String → Option String)
      → (ℕ → ℕ → ℕ → ℕ)
      → (ℕ → String)
      → (BarsRequest → Option (HttpResponse D))
      → String
      → String
      → ℕ
      → Result (List (List F))
  unfolding alpaca_credentials read_bars
  request_bars environ times since get symbol timeframe limit = do
    tf ← alpaca_timeframe timeframe
    keys ← alpaca_credentials environ
    per_day ← bars_per_trading_day timeframe
    let days = calendar_days times limit per_day
    read_bars (
        get (record {
          symbol = symbol;
          timeframe = tf;
          limit = limit;
          start = since days;
          key = keys.0;
          secret = keys.1;
        }))
