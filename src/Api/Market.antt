-- ===== src/Api/Market.antt =====
-- apps/bot-engine/app/api/market.py: candles for the dashboard's chart. The factory of public clients and the fetch
-- of stock bars are parameters; `X` is the type of an entry of a candle, and `F` the type of floats.
mod Tests
use xbottrader.Launch.Production.{is_us_equity}
use xbottrader.Market.Session.{asset_class_for}
use xbottrader.Api.Symbols.{validate_symbol}
use xbottrader.Api.{Response, answer, http_error, unhandled, message}
use xbottrader.Strategy.Base.{market}
use xbottrader.Prelude.{
  ltb, if◌then◌else◌, value_error, equity_data_error, Result, raised, ok, ◌>>=◌, ℕ, zero, suc,
  String, ◌||◌, List, [], ◌∷◌,
}

pub record OhlcvResponse (F : Type 0) : Type 0 where
  pub exchange : String
  pub symbol : String
  pub timeframe : String
  pub candles : List (List F)

-- a public client, by what it answers
pub record PublicClient (X : Type 0) : Type 0 where
  pub fetch_ohlcv : String → String → ℕ → Result (List (List X))
  pub close : Result (Unit {0})

-- `_MAX_LIMIT`
abbrev pub max_limit : ℕ
max_limit = 1000

module _ {X F : Type 0} (to_float : X → Result F) where
  -- `[float(v) for v in row[:n]]`
  abbrev pub floats_of : ℕ → List X → Result (List F)
  floats_of zero row = ok []
  floats_of (suc n) [] = ok []
  floats_of (suc n) (x ∷ xs) = to_float x >>= λ v. floats_of n xs >>= λ vs. ok (v ∷ vs)

  abbrev pub rows_of_floats : List (List X) → Result (List (List F))
  rows_of_floats [] = ok []
  rows_of_floats (row ∷ rows) =
      floats_of 6 row >>= λ vs. rows_of_floats rows >>= λ more. ok (vs ∷ more)

  abbrev pub answer_rows : Result (List (List F)) → Response (List (List F))
  answer_rows (ok rows) = answer rows
  answer_rows (raised e) = unhandled e

  -- what the client has answered, once it has closed: a failure of `close` replaces the answer
  abbrev pub after_close : Result (Unit {0}) → Result (List (List X)) → Response (List (List F))
  after_close (raised e) raw = unhandled e
  after_close (ok done) (raised e) = http_error 502 "market data unavailable"
  after_close (ok done) (ok raw) = answer_rows (rows_of_floats raw)

  -- `_fetch_crypto`, given what the factory has made
  unfoldable pub fetch_crypto :
      Result (PublicClient X) → String → String → ℕ → Response (List (List F))
  fetch_crypto (raised (value_error m)) symbol timeframe size = http_error 400 m
  fetch_crypto (raised e) symbol timeframe size = unhandled e
  fetch_crypto (ok client) symbol timeframe size =
      after_close client.close (client.fetch_ohlcv symbol timeframe size)

-- `_fetch_equity`, given what the fetcher answers
unfoldable pub fetch_equity : {F : Type 0} → Result (List (List F)) → Response (List (List F))
fetch_equity (ok rows) = answer rows
fetch_equity (raised (value_error m)) = http_error 400 m
fetch_equity (raised (equity_data_error m)) = http_error 502 m
fetch_equity (raised e) = http_error 502 "market data unavailable"

module _ {X F : Type 0} (to_float : X → Result F) (factory : String → Result (PublicClient X))
    (fetcher : String → String → ℕ → Result (List (List F))) where
  abbrev pub candle_rows : String → String → String → ℕ → Response (List (List F))
  candle_rows exchange symbol timeframe size =
      if is_us_equity (asset_class_for exchange)
      then fetch_equity (fetcher symbol timeframe size)
      else fetch_crypto to_float (factory exchange) symbol timeframe size

  abbrev pub ohlcv_response :
      String → String → String → Response (List (List F)) → Response (OhlcvResponse F)
  ohlcv_response exchange symbol timeframe (answer rows) =
      answer
        (record { exchange = exchange; symbol = symbol; timeframe = timeframe; candles = rows })
  ohlcv_response exchange symbol timeframe (http_error n m) = http_error n m
  ohlcv_response exchange symbol timeframe (unhandled e) = unhandled e

  -- the symbol is checked before anything is fetched
  abbrev pub if_valid : Result (Unit {0}) → Response (OhlcvResponse F) → Response (OhlcvResponse F)
  if_valid (raised e) response = http_error 400 (message e)
  if_valid (ok done) response = response

  -- `get_ohlcv`
  unfoldable pub get_ohlcv : String → String → String → ℕ → Response (OhlcvResponse F)
  unfolding fetch_crypto fetch_equity validate_symbol
  get_ohlcv exchange symbol timeframe size =
      if ltb size 1 || ltb max_limit size
      then http_error 422 "out of range"
      else if_valid (validate_symbol exchange symbol)
          (ohlcv_response exchange symbol timeframe (candle_rows exchange symbol timeframe size))
