-- ===== src/Backtest/Run/Tests.antt =====
-- A backtest of a grid over two candles of whole numbers.
use xbottrader.Api.Requests.{BacktestRequest, symbol_matches_asset_class, check_backtest}
use xbottrader.Api.{answer}
use xbottrader.Backtest.Run.Answered.{backtest_run-answered}
use xbottrader.Backtest.Run.{
  HistoricalDataClient, candle_to_bar, candles_to_bars, run_configured, backtest_run,
}
use xbottrader.Backtest.Engine.{BacktestResult}
use xbottrader.Exchange.Base.{Draws}
use xbottrader.Config.Registry.{Registry}
use xbottrader.Config.Factory.{grid_strategy, grid_meant}
use xbottrader.Config.Schema.{GridSpec, grid, ai_signal, check_grid, check_config}
use xbottrader.Config.Built.{strategy_meant}
use xbottrader.Config.Dump.{dump_custom_rules}
use xbottrader.Api.Symbols.{crypto_symbol_re}
use xbottrader.Exchange.CcxtLive.{to_bar}
use xbottrader.Decimal.Whole.{ℤ, pos, whole, ℤ-IsOrdered, ℤ-HasSigns}
use xbottrader.Config.Fixtures.{py}
use xbottrader.Strategy.Base.{Bar}
use xbottrader.Prelude.{
  length, value_error, runtime_error, Result, raised, ok, ℕ, String, ◌≡◌, refl, true, none, List,
  [], ◌∷◌,
}

abbrev draws : Draws
draws = record { ids = λ n. "id"; utc = λ n. n }

abbrev spec : GridSpec ℤ
spec = record {
  symbol = "BTC/USDT";
  lower_price = pos 100;
  upper_price = pos 200;
  grid_levels = 5;
  total_quote = pos 1000;
}

abbrev body : BacktestRequest ℤ
body = record {
  strategy = grid spec;
  timeframe = "1h";
  limit = 500;
  since_ms = none;
  starting_cash = pos 10000;
  exchange = "kraken";
}

abbrev candles : List (List ℕ)
candles = (0 ∷ 180 ∷ 180 ∷ 180 ∷ 180 ∷ 9 ∷ []) ∷ (3600000 ∷ 110 ∷ 110 ∷ 110 ∷ 110 ∷ 9 ∷ []) ∷ []

abbrev client : HistoricalDataClient ℕ
client = record { fetch_ohlcv = λ symbol timeframe since limit. ok candles; close = ok tt }

abbrev make_client : String → Result (HistoricalDataClient ℕ)
make_client exchange = ok client

abbrev no_python : Unit {0} → List (Bar ℤ) → ℤ → Result (BacktestResult ℤ)
no_python s bars cash = raised (runtime_error "no keyed strategy")

abbrev read_price : ℕ → Result ℤ
read_price n = ok (pos n)

abbrev empty_registry : Registry ℤ (Unit {0})
empty_registry = record { factories = []; loaded = true }

abbrev bar_of : ℕ → ℕ → Bar ℤ
bar_of ts price = record {
  ts_ms = ts;
  symbol = "BTC/USDT";
  open_price = pos price;
  high = pos price;
  low = pos price;
  close = pos price;
  volume = pos 9;
}

abbrev two_bars : List (Bar ℤ)
two_bars = bar_of 0 180 ∷ bar_of 3600000 110 ∷ []

body-accepted : check_backtest body ≡ ok tt
unfolding check_backtest check_config check_grid symbol_matches_asset_class crypto_symbol_re
body-accepted = refl

backtest_run-answered_example :
    (r : BacktestResult ℤ) × (backtest_run draws no_python py dump_custom_rules [] empty_registry ok
        read_price make_client body
      ≡ answer r)
    × (r.bars ≡ 2)
    × (length r.equity_curve ≡ 2)
unfolding strategy_meant candles_to_bars candle_to_bar to_bar
backtest_run-answered_example =
    backtest_run-answered ℤ-HasSigns ℤ-IsOrdered draws no_python py dump_custom_rules []
      empty_registry ok read_price make_client body (grid_strategy (grid_meant spec)) client candles
      two_bars (λ s. refl) body-accepted refl refl refl refl refl refl

-- a decision of the language model cannot be replayed
refused :
    run_configured draws no_python py dump_custom_rules [] empty_registry
      (ai_signal (record {
        symbol = "BTC/USDT";
        quote_amount = pos 50;
        decision_interval_minutes = 15;
        lookback_bars = 3;
        guidance = none;
        model = none;
      }))
      two_bars
      (pos 100)
    ≡ raised (value_error "ai_signal strategies are not backtestable")
unfolding run_configured
refused = refl
