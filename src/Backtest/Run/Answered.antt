-- ===== src/Backtest/Run/Answered.antt =====
-- apps/ai-engine/app/api/routes.py: the backtest of an accepted configuration.
use xbottrader.Api.{answer}
use xbottrader.Config.Registry.{Registry, Decorated}
use xbottrader.Launch.Production.{symbol_of}
use xbottrader.Llm.Signal.{or_text}
use xbottrader.Strategy.Value.{Fields, Coercions}
use xbottrader.Strategy.Grid.Lots.{grid_run-LotStep}
use xbottrader.Api.Requests.{BacktestRequest, check_backtest}
use xbottrader.Backtest.Run.Returns.{run_backtest-returns}
use xbottrader.Backtest.Run.{
  HistoricalDataClient, no_lots, no_averages, is_ai_signal, candle_to_bar, candles_to_bars,
  replay_strategy, run_configured, run_request, backtest_run,
}
use xbottrader.Backtest.Engine.{BacktestResult}
use xbottrader.Exchange.Paper.{default_config}
use xbottrader.Exchange.Base.{Draws}
use xbottrader.Config.Factory.{Strategy, dca_meant, grid_meant, ma_crossover_meant}
use xbottrader.Config.Schema.{
  CustomRulesSpec, StrategyConfig, dca, grid, ma_crossover, custom_rules, ai_signal, python,
  check_config,
}
use xbottrader.Config.Built.{
  strategy_meant, dca-builds, grid-builds, ma_crossover-builds, config-built,
}
use xbottrader.Config.Dump.{dump_custom_rules}
use xbottrader.Strategy.MaCrossover.Alternation.{ma_run-PositionStep}
use xbottrader.Strategy.Dca.Spacing.{dca_run-IsSpaced}
use xbottrader.Strategy.Base.{Bar}
use xbottrader.Decimal.{Decimal, ◌⩽◌, IsOrdered, HasSigns}
use xbottrader.Prelude.{
  if◌then◌else◌, or_default, length, Result, ok, then-ok, bind-ok, ok-injective, ℕ, suc, String,
  ◌≡◌, refl, sym, ap, subst, ◌∙◌, Bool, true, false, none, some, List, [], ◌∷◌,
}

-- The strategies whose bars no text of the configuration and no language model can stop: a rule may name NaN, which
-- raises where it is compared, a keyed strategy is any code, and an AI decision cannot be replayed.
abbrev pub is_plain : {D : Type 0} → StrategyConfig D → Bool
is_plain (dca s) = true
is_plain (grid s) = true
is_plain (ma_crossover s) = true
is_plain (custom_rules s) = false
is_plain (ai_signal s) = false
is_plain (python s) = false

plain-is_ai_signal :
    {D : Type 0} (config : StrategyConfig D) → is_plain config ≡ true → is_ai_signal config ≡ false
plain-is_ai_signal (dca s) h = refl
plain-is_ai_signal (grid s) h = refl
plain-is_ai_signal (ma_crossover s) h = refl
plain-is_ai_signal (custom_rules s) h = refl
plain-is_ai_signal (ai_signal s) h = absurd cc
plain-is_ai_signal (python s) h = refl

module _ {D S : Type 0} ⦃d : Decimal D⦄ (signs : HasSigns D) (order : IsOrdered D) (draws : Draws)
    (run_python : S → List (Bar D) → D → Result (BacktestResult D)) where
  -- a result with a point of the equity curve for each bar
  abbrev pub IsReplayOf : List (Bar D) → Result (BacktestResult D) → Type 0
  IsReplayOf bars result =
      (r : BacktestResult D) × (result ≡ ok r)
      × (r.bars ≡ length bars)
      × (length r.equity_curve ≡ length bars)

  meant_always : {x y : Strategy D S} → some x ≡ some y → x ≡ y
  meant_always {x} m = ap (or_default x) m

  meant_unless :
      (b : Bool) {x y : Strategy D S}
      → (if b then none else some x) ≡ some y
      → (b ≡ false) × (x ≡ y)
  meant_unless true m = absurd cc
  meant_unless false {x} m = (refl, ap (or_default x) m)

  replayed :
      (bars : List (Bar D)) (cash : D) {x y : Strategy D S}
      → x ≡ y
      → IsReplayOf bars (replay_strategy draws run_python x bars cash)
      → IsReplayOf bars (replay_strategy draws run_python y bars cash)
  replayed bars cash m h =
      subst (λ s. IsReplayOf bars (replay_strategy draws run_python s bars cash)) m h

  strategy-replayed :
      (config : StrategyConfig D) (strategy : Strategy D S) (bars : List (Bar D)) (cash : D)
      → check_config config ≡ ok tt
      → strategy_meant config ≡ some strategy
      → is_plain config ≡ true
      → IsReplayOf bars (replay_strategy draws run_python strategy bars cash)
  unfolding check_config strategy_meant replay_strategy
  strategy-replayed (dca s) strategy bars cash h m n =
      let (log, t, e, spaced) =
        dca_run-IsSpaced signs (dca_meant s) bars (record { last_action_ts_ms = none; custom = tt })
          (dca-builds s h) in
      replayed bars cash (meant_always m)
        (run_backtest-returns draws _ default_config bars tt cash (log, t) e)
  strategy-replayed (grid s) strategy bars cash h m n =
      let (ordered, same) = meant_unless (s.upper_price ⩽ s.lower_price) m in
      let (log, t, b, e, r, k) =
        grid_run-LotStep order signs (grid_meant s) (grid-builds s h ordered) bars
          (record { last_action_ts_ms = none; custom = no_lots }) [] (refl, tt) in
      replayed bars cash same
        (run_backtest-returns draws _ default_config bars no_lots cash (log, t) e)
  strategy-replayed (ma_crossover s) strategy bars cash h m n =
      let (log, t, b, e, r, k) =
        ma_run-PositionStep signs (ma_crossover_meant s) (ma_crossover-builds s h) bars
          (record { last_action_ts_ms = none; custom = no_averages }) none refl in
      replayed bars cash (meant_always m)
        (run_backtest-returns draws _ default_config bars no_averages cash (log, t) e)
  strategy-replayed (custom_rules s) strategy bars cash h m n = absurd cc
  strategy-replayed (ai_signal s) strategy bars cash h m n = absurd cc
  strategy-replayed (python s) strategy bars cash h m n = absurd cc

module _ {D X : Type 0} (read_int : X → Result ℕ) (read_decimal : X → Result D) where
  length-candles_to_bars :
      (symbol : String) (candles : List (List X)) (bars : List (Bar D))
      → candles_to_bars read_int read_decimal symbol candles ≡ ok bars
      → length bars ≡ length candles
  unfolding candles_to_bars
  length-candles_to_bars symbol [] bars h = ap length (sym (ok-injective h))
  length-candles_to_bars symbol (candle ∷ candles) bars h =
      let (bar, e, h1) = bind-ok (candle_to_bar read_int read_decimal candle symbol) _ bars h in
      let (rest, e', h2) =
        bind-ok (candles_to_bars read_int read_decimal symbol candles) _ bars h1 in
      ap length (sym (ok-injective h2)) ∙ ap suc (length-candles_to_bars symbol candles rest e')

module _ {D S X : Type 0} ⦃d : Decimal D⦄ (signs : HasSigns D) (order : IsOrdered D) (draws : Draws)
    (run_python : S → List (Bar D) → D → Result (BacktestResult D)) (py : Coercions D)
    (model_dump : CustomRulesSpec D → Fields D) (modules : List (String × Decorated D S))
    (reg : Registry D S) (read_int : X → Result ℕ) (read_decimal : X → Result D)
    (make_client : String → Result (HistoricalDataClient X)) where
  configured-replayed :
      (config : StrategyConfig D) (strategy : Strategy D S) (bars : List (Bar D)) (cash : D)
      → ((s : CustomRulesSpec D) → model_dump s ≡ dump_custom_rules s)
      → check_config config ≡ ok tt
      → strategy_meant config ≡ some strategy
      → is_plain config ≡ true
      → IsReplayOf signs order draws run_python bars
          (run_configured draws run_python py model_dump modules reg config bars cash)
  unfolding run_configured
  configured-replayed config strategy bars cash dumped h m n =
      let built = config-built py model_dump modules reg config strategy dumped h m in
      rw (plain-is_ai_signal config n)
        (rw built (strategy-replayed signs order draws run_python config strategy bars cash h m n))

  -- A backtest that the request model accepts, of a DCA, grid or moving-average strategy, is answered with a
  -- result that has a point of the equity curve for each candle, where the client of historical data is made,
  -- fetches candles that can be read, and closes. The prices of a grid are in order, `model_dump` gives the
  -- nested dicts of the model, and numbers have their signs and order, so that no
  -- candle holds a NaN.
  pub backtest_run-answered :
      (body : BacktestRequest D) (strategy : Strategy D S) (client : HistoricalDataClient X)
      (candles : List (List X)) (bars : List (Bar D))
      → ((s : CustomRulesSpec D) → model_dump s ≡ dump_custom_rules s)
      → check_backtest body ≡ ok tt
      → strategy_meant body.strategy ≡ some strategy
      → is_plain body.strategy ≡ true
      → make_client (or_text (some body.exchange) "kraken") ≡ ok client
      → client.fetch_ohlcv (symbol_of body.strategy) body.timeframe body.since_ms body.limit
        ≡ ok candles
      → client.close ≡ ok tt
      → candles_to_bars read_int read_decimal (symbol_of body.strategy) candles ≡ ok bars
      → (r : BacktestResult D) × (backtest_run draws run_python py model_dump modules reg read_int
            read_decimal make_client body
          ≡ answer r)
        × (r.bars ≡ length candles)
        × (length r.equity_curve ≡ length candles)
  unfolding backtest_run run_request check_backtest
  backtest_run-answered body strategy client candles bars dumped h m n made fetched closed read =
      let (config, others) = then-ok (check_config body.strategy) _ tt h in
      let (r, e, size, points) =
        configured-replayed body.strategy strategy bars body.starting_cash dumped config m n in
      let all =
        length-candles_to_bars read_int read_decimal (symbol_of body.strategy) candles bars read in
      (r, rw h (rw made (rw closed (rw fetched (rw read (rw e refl))))), size ∙ all, points ∙ all)
