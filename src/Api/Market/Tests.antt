-- ===== src/Api/Market/Tests.antt =====
-- Candles of two venues.
use xbottrader.Api.Market.{PublicClient, fetch_crypto, fetch_equity, get_ohlcv}
use xbottrader.Api.Symbols.{crypto_symbol_re, equity_symbol_re, validate_symbol}
use xbottrader.Api.{answer, http_error}
use xbottrader.Prelude.{
  runtime_error, equity_data_error, Result, raised, ok, ℕ, String, ◌≡◌, refl, List, [], ◌∷◌,
}

abbrev one_row : List (List ℕ)
one_row = (1 ∷ 2 ∷ 3 ∷ 4 ∷ 5 ∷ 6 ∷ 7 ∷ []) ∷ []

abbrev market : PublicClient ℕ
market = record { fetch_ohlcv = λ symbol timeframe size. ok one_row; close = ok tt }

abbrev down : PublicClient ℕ
down = record {
  fetch_ohlcv = λ symbol timeframe size. raised (runtime_error "timeout");
  close = ok tt;
}

abbrev no_stocks : String → String → ℕ → Result (List (List ℕ))
no_stocks symbol timeframe size = raised (equity_data_error "no keys")

six_columns :
    get_ohlcv ok (λ e. ok market) no_stocks "kraken" "BTC/USDT" "1m" 200
    ≡ answer (record {
      exchange = "kraken";
      symbol = "BTC/USDT";
      timeframe = "1m";
      candles = (1 ∷ 2 ∷ 3 ∷ 4 ∷ 5 ∷ 6 ∷ []) ∷ [];
    })
unfolding get_ohlcv fetch_crypto validate_symbol crypto_symbol_re
six_columns = refl

venue_down :
    get_ohlcv ok (λ e. ok down) no_stocks "kraken" "BTC/USDT" "1m" 200
    ≡ http_error 502 "market data unavailable"
unfolding get_ohlcv fetch_crypto validate_symbol crypto_symbol_re
venue_down = refl

keys_missing :
    get_ohlcv ok (λ e. ok market) no_stocks "alpaca" "AAPL" "1m" 200 ≡ http_error 502 "no keys"
unfolding get_ohlcv fetch_equity validate_symbol equity_symbol_re
keys_missing = refl

ticker_elsewhere :
    get_ohlcv ok (λ e. ok market) no_stocks "kraken" "AAPL" "1m" 200
    ≡ http_error 400 "not a valid crypto pair"
unfolding get_ohlcv validate_symbol crypto_symbol_re
ticker_elsewhere = refl
