-- ===== src/Config/Factory.antt =====
-- packages/xbt-core/xbt_core/strategies/factory.py. pydantic's `model_dump` is a parameter.
use xbottrader.Prelude.{Result, ok, ◌>>=◌, String, List}
use xbottrader.Decimal.{Decimal}
use xbottrader.Strategy.Value.{Fields, Coercions}
use xbottrader.Strategy.RuleEngine.Parse.{from_dict}
use xbottrader.Config.Schema.{
  DcaSpec, GridSpec, MaCrossoverSpec, AiSignalSpec, CustomRulesSpec, StrategyConfig, dca, grid,
  ma_crossover, custom_rules, ai_signal, python,
}
use xbottrader.Config.Registry.{Registry, Decorated, build_python_strategy}
use xbottrader.Strategy.Dca.{DcaParams, dca_params}
use xbottrader.Strategy.Grid.{GridParams, grid_params}
use xbottrader.Strategy.MaCrossover.{MaCrossoverParams, ma_crossover_params}
use xbottrader.Strategy.AiSignal.{AiSignalParams, ai_signal_params}
use xbottrader.Strategy.RuleEngine.Config.{RuleEngineParams}

-- a strategy object, by its class: its parameters, or what a registered factory has made
pub data Strategy (D S : Type 0) : Type 0 where
  dca_strategy : DcaParams D → Strategy D S
  grid_strategy : GridParams D → Strategy D S
  ma_crossover_strategy : MaCrossoverParams D → Strategy D S
  rule_engine_strategy : RuleEngineParams D → Strategy D S
  ai_signal_strategy : AiSignalParams D → Strategy D S
  python_strategy : S → Strategy D S

module _ {D : Type 0} where
  abbrev pub dca_meant : DcaSpec D → DcaParams D
  dca_meant s = record {
    symbol = s.symbol;
    quote_amount = s.quote_amount;
    interval_minutes = s.interval_minutes;
  }

  abbrev pub grid_meant : GridSpec D → GridParams D
  grid_meant s = record {
    symbol = s.symbol;
    lower_price = s.lower_price;
    upper_price = s.upper_price;
    grid_levels = s.grid_levels;
    total_quote = s.total_quote;
  }

  abbrev pub ma_crossover_meant : MaCrossoverSpec D → MaCrossoverParams D
  ma_crossover_meant s = record {
    symbol = s.symbol;
    fast_period = s.fast_period;
    slow_period = s.slow_period;
    position_quote = s.position_quote;
  }

  abbrev pub ai_signal_meant : AiSignalSpec D → AiSignalParams D
  ai_signal_meant s = record {
    symbol = s.symbol;
    quote_amount = s.quote_amount;
    decision_interval_minutes = s.decision_interval_minutes;
    lookback_bars = s.lookback_bars;
    guidance = s.guidance;
    model = s.model;
  }

module _ {D : Type 0} ⦃d : Decimal D⦄ (py : Coercions D)
    (model_dump : CustomRulesSpec D → Fields D) where
  -- `RuleEngineParams.from_config` on the model of a configuration
  unfoldable pub from_config : CustomRulesSpec D → Result (RuleEngineParams D)
  from_config s = from_dict py (model_dump s)

module _ {D S : Type 0} ⦃d : Decimal D⦄ (py : Coercions D)
    (model_dump : CustomRulesSpec D → Fields D) where
  -- `build_strategy`, with the registry that it leaves
  unfoldable pub build_strategy :
      List (String × Decorated D S)
      → Registry D S
      → StrategyConfig D
      → Result (Registry D S × Strategy D S)
  unfolding from_config
  build_strategy modules reg (dca s) = dca_params (dca_meant s) >>= λ p. ok (reg, dca_strategy p)
  build_strategy modules reg (grid s) =
      grid_params (grid_meant s) >>= λ p. ok (reg, grid_strategy p)
  build_strategy modules reg (ma_crossover s) =
      ma_crossover_params (ma_crossover_meant s) >>= λ p. ok (reg, ma_crossover_strategy p)
  build_strategy modules reg (custom_rules s) =
      from_config py model_dump s >>= λ p. ok (reg, rule_engine_strategy p)
  build_strategy modules reg (ai_signal s) =
      ai_signal_params (ai_signal_meant s) >>= λ p. ok (reg, ai_signal_strategy p)
  build_strategy modules reg (python s) =
      build_python_strategy modules reg s.strategy_key s.params >>= λ built.
      ok (built.0, python_strategy built.1)
