-- ===== src/Backtest/Run.antt =====
-- The backtest of a configuration: `Backtester.run` and the head of `run_backtest` in
-- apps/ai-engine/app/backtest/engine.py, `candle_to_bar` in data.py beside it, and the route `backtest_run` of
-- apps/ai-engine/app/api/routes.py. The client of historical data is a parameter; `X` is the type of an entry of
-- a candle, and what a keyed Python strategy makes of bars is a parameter too.
pub mod Returns
pub mod Answered
mod Tests
use xbottrader.Api.Requests.{BacktestRequest, check_backtest}
use xbottrader.Api.{Response, answer, http_error, unhandled, message}
use xbottrader.Llm.Signal.{or_text}
use xbottrader.Launch.Production.{symbol_of}
use xbottrader.Backtest.Engine.{BacktestResult, run_backtest}
use xbottrader.Exchange.Paper.{default_config}
use xbottrader.Exchange.Base.{Draws}
use xbottrader.Exchange.CcxtLive.{to_bar}
use xbottrader.Config.Registry.{Registry, Decorated}
use xbottrader.Config.Factory.{
  Strategy, dca_strategy, grid_strategy, ma_crossover_strategy, rule_engine_strategy,
  ai_signal_strategy, python_strategy, build_strategy,
}
use xbottrader.Config.Schema.{
  CustomRulesSpec, StrategyConfig, dca, grid, ma_crossover, custom_rules, ai_signal, python,
}
use xbottrader.Strategy.AiSignal.{AiSlots}
use xbottrader.Strategy.RuleEngine.Engine.{RuleSlots}
use xbottrader.Strategy.MaCrossover.{MaSlots}
use xbottrader.Strategy.Grid.{GridSlots}
use xbottrader.Strategy.Value.{Fields, Coercions}
use xbottrader.Strategy.Base.{Bar}
use xbottrader.Decimal.{Decimal}
use xbottrader.Prelude.{
  value_error, Result, raised, ok, raise_if, ◌>>=◌, ◌>>◌, ℕ, String, Bool, true, false, not, Option,
  none, some, List, [], ◌∷◌,
}
use xbottrader.Strategy.Dca as Dca
use xbottrader.Strategy.Grid as Grid
use xbottrader.Strategy.MaCrossover as MaCrossover
use xbottrader.Strategy.AiSignal as AiSignal
use xbottrader.Strategy.RuleEngine.Engine as Engine

-- a client, by what it answers to a fetch of candles and to `close`
pub record HistoricalDataClient (X : Type 0) : Type 0 where
  pub fetch_ohlcv : String → String → Option ℕ → ℕ → Result (List (List X))
  pub close : Result (Unit {0})

-- `try: value finally: close`
abbrev pub finally {ℓ} : {A : Type ℓ} → Result (Unit {0}) → Result A → Result A
finally (raised e) value = raised e
finally (ok done) value = value

module _ {D : Type 0} where
  -- the empty `StrategyState().custom` of each strategy
  abbrev pub no_lots : GridSlots D
  no_lots = record { prev_close = none; lots = [] }

  abbrev pub no_averages : MaSlots D
  no_averages = record {
    closes = [];
    was_above = none;
    position = record { in_position = false; held_qty = none };
  }

  abbrev pub no_rules_fired : RuleSlots D
  no_rules_fired = record {
    closes = [];
    prev_ind = [];
    rule_truth = λ idx. none;
    rule_fire_ts = λ idx. none;
  }

  abbrev pub no_signal : AiSlots D
  no_signal = record { closes = []; signal = none; consumed_seq = none; held_qty = none }

  -- `strategy_type == "ai_signal"`
  abbrev pub is_ai_signal : StrategyConfig D → Bool
  is_ai_signal (ai_signal s) = true
  is_ai_signal (dca s) = false
  is_ai_signal (grid s) = false
  is_ai_signal (ma_crossover s) = false
  is_ai_signal (custom_rules s) = false
  is_ai_signal (python s) = false

module _ {D X : Type 0} (read_int : X → Result ℕ) (read_decimal : X → Result D) where
  -- `candle_to_bar`
  unfoldable pub candle_to_bar : List X → String → Result (Bar D)
  unfolding to_bar
  candle_to_bar candle symbol = to_bar read_int read_decimal symbol candle

  unfoldable pub candles_to_bars : String → List (List X) → Result (List (Bar D))
  unfolding candle_to_bar
  candles_to_bars symbol [] = ok []
  candles_to_bars symbol (candle ∷ candles) = do
    bar ← candle_to_bar candle symbol
    bars ← candles_to_bars symbol candles
    ok (bar ∷ bars)

module _ {D S : Type 0} ⦃d : Decimal D⦄ (draws : Draws)
    (run_python : S → List (Bar D) → D → Result (BacktestResult D)) where
  -- `on_bar` of the class of the strategy, over the bars
  unfoldable pub replay_strategy : Strategy D S → List (Bar D) → D → Result (BacktestResult D)
  unfolding run_backtest
  replay_strategy (dca_strategy p) bars cash =
      run_backtest draws (Dca.on_bar p) default_config bars tt cash
  replay_strategy (grid_strategy p) bars cash =
      run_backtest draws (Grid.on_bar p) default_config bars no_lots cash
  replay_strategy (ma_crossover_strategy p) bars cash =
      run_backtest draws (MaCrossover.on_bar p) default_config bars no_averages cash
  replay_strategy (rule_engine_strategy p) bars cash =
      run_backtest draws (Engine.on_bar p) default_config bars no_rules_fired cash
  replay_strategy (ai_signal_strategy p) bars cash =
      run_backtest draws (AiSignal.on_bar p) default_config bars no_signal cash
  replay_strategy (python_strategy s) bars cash = run_python s bars cash

  module _ (py : Coercions D) (model_dump : CustomRulesSpec D → Fields D)
      (modules : List (String × Decorated D S)) (reg : Registry D S) where
    -- `run_backtest`, on a configuration
    unfoldable pub run_configured : StrategyConfig D → List (Bar D) → D → Result (BacktestResult D)
    unfolding build_strategy replay_strategy
    run_configured config bars starting_cash = do
      raise_if (is_ai_signal config) (value_error "ai_signal strategies are not backtestable")
      built ← build_strategy py model_dump modules reg config
      replay_strategy built.1 bars starting_cash

    module _ {X : Type 0} (read_int : X → Result ℕ) (read_decimal : X → Result D)
        (make_client : String → Result (HistoricalDataClient X)) where
      -- `Backtester.run`
      unfoldable pub run_request : BacktestRequest D → Result (BacktestResult D)
      unfolding run_configured candles_to_bars
      run_request body =
          let symbol = symbol_of body.strategy in
          do
            client ← make_client (or_text (some body.exchange) "kraken")
            candles ←
                finally client.close
                  (client.fetch_ohlcv symbol body.timeframe body.since_ms body.limit)
            bars ← candles_to_bars read_int read_decimal symbol candles
            run_configured body.strategy bars body.starting_cash

      abbrev pub answer_or_400 : Result (BacktestResult D) → Response (BacktestResult D)
      answer_or_400 (ok result) = answer result
      answer_or_400 (raised (value_error m)) = http_error 400 m
      answer_or_400 (raised e) = unhandled e

      abbrev pub after_check :
          Result (Unit {0}) → Result (BacktestResult D) → Response (BacktestResult D)
      after_check (raised e) result = http_error 422 (message e)
      after_check (ok done) result = answer_or_400 result

      -- `backtest_run`, on a body with fields of the right types
      unfoldable pub backtest_run : BacktestRequest D → Response (BacktestResult D)
      unfolding run_request check_backtest
      backtest_run body = after_check (check_backtest body) (run_request body)
