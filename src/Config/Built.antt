-- ===== src/Config/Built.antt =====
-- packages/xbt-core/xbt_core/strategies/factory.py on a configuration that strategy_config.py accepts.
use xbottrader.Strategy.AiSignal.{ai_signal_params}
use xbottrader.Strategy.MaCrossover.{ma_crossover_params}
use xbottrader.Strategy.Grid.{grid_params}
use xbottrader.Strategy.Dca.{dca_params}
use xbottrader.Config.Accepted.{accepted-builds}
use xbottrader.Config.Factory.{
  Strategy, dca_strategy, grid_strategy, ma_crossover_strategy, rule_engine_strategy,
  ai_signal_strategy, dca_meant, grid_meant, ma_crossover_meant, ai_signal_meant, from_config,
  build_strategy,
}
use xbottrader.Config.Registry.{Registry, Decorated}
use xbottrader.Config.Dump.{dump_custom_rules, are_plain_rules, params_meant}
use xbottrader.Config.Schema.{
  DcaSpec, GridSpec, MaCrossoverSpec, AiSignalSpec, CustomRulesSpec, StrategyConfig, dca, grid,
  ma_crossover, custom_rules, ai_signal, python, check_dca, check_grid, check_ma_crossover,
  check_ai_signal, check_config,
}
use xbottrader.Strategy.Value.{Fields, Coercions}
use xbottrader.Decimal.{Decimal, ◌⩽◌}
use xbottrader.Prelude.{
  if◌then◌else◌, or_default, Bool-cases, Result, ok, String, ◌≡◌, ap, inl, inr, Bool, true, false,
  Option, none, some, List, arith,
}

-- The strategy that a configuration means, field by field; none where the schema asks less than the strategy does: a
-- comparison with terms, a grid whose prices are not in order, and a strategy with a key.
unfoldable pub strategy_meant :
    {D S : Type 0} → ⦃d : Decimal D⦄ → StrategyConfig D → Option (Strategy D S)
strategy_meant (dca s) = some (
    dca_strategy (record {
      symbol = s.symbol;
      quote_amount = s.quote_amount;
      interval_minutes = s.interval_minutes;
    }))
strategy_meant (grid s) =
    if s.upper_price ⩽ s.lower_price
    then none
    else some (
        grid_strategy (record {
          symbol = s.symbol;
          lower_price = s.lower_price;
          upper_price = s.upper_price;
          grid_levels = s.grid_levels;
          total_quote = s.total_quote;
        }))
strategy_meant (ma_crossover s) = some (
    ma_crossover_strategy (record {
      symbol = s.symbol;
      fast_period = s.fast_period;
      slow_period = s.slow_period;
      position_quote = s.position_quote;
    }))
strategy_meant (custom_rules s) =
    if are_plain_rules s.rules then some (rule_engine_strategy (params_meant s)) else none
strategy_meant (ai_signal s) = some (
    ai_signal_strategy (record {
      symbol = s.symbol;
      quote_amount = s.quote_amount;
      decision_interval_minutes = s.decision_interval_minutes;
      lookback_bars = s.lookback_bars;
      guidance = s.guidance;
      model = s.model;
    }))
strategy_meant (python s) = none

module _ {D : Type 0} ⦃d : Decimal D⦄ where
  pub dca-builds :
      (s : DcaSpec D) → check_dca s ≡ ok tt → dca_params (dca_meant s) ≡ ok (dca_meant s)
  unfolding check_dca dca_params
  dca-builds s h = ground arith

  pub grid-builds :
      (s : GridSpec D)
      → check_grid s ≡ ok tt
      → (s.upper_price ⩽ s.lower_price) ≡ false
      → grid_params (grid_meant s) ≡ ok (grid_meant s)
  unfolding check_grid grid_params
  grid-builds s h o = ground arith

  pub ma_crossover-builds :
      (s : MaCrossoverSpec D)
      → check_ma_crossover s ≡ ok tt
      → ma_crossover_params (ma_crossover_meant s) ≡ ok (ma_crossover_meant s)
  unfolding check_ma_crossover ma_crossover_params
  ma_crossover-builds s h = ground arith

  ai_signal-builds :
      (s : AiSignalSpec D)
      → check_ai_signal s ≡ ok tt
      → ai_signal_params (ai_signal_meant s) ≡ ok (ai_signal_meant s)
  unfolding check_ai_signal ai_signal_params
  ai_signal-builds s h = ground arith

module _ {D S : Type 0} (reg : Registry D S) where
  -- the registry beside the strategy of an equation
  abbrev outcome : Strategy D S → Result (Registry D S × Strategy D S)
  outcome x = ok (reg, x)

  meant : {x y : Strategy D S} → some x ≡ some y → outcome x ≡ outcome y
  meant {x} m = ap (λ o. outcome (or_default x o)) m

  meant-then :
      (b : Bool)
      → {x y : Strategy D S} → b ≡ true
      → (if b then some x else none) ≡ some y
      → outcome x ≡ outcome y
  meant-then true h m = meant m
  meant-then false h m = absurd cc

  meant-else :
      (b : Bool)
      → {x y : Strategy D S} → b ≡ false
      → (if b then none else some x) ≡ some y
      → outcome x ≡ outcome y
  meant-else true h m = absurd cc
  meant-else false h m = meant m

module _ {D S : Type 0} ⦃d : Decimal D⦄ (py : Coercions D) where
  -- A configuration that its schema accepts is built by `build_strategy` into the strategy that
  -- it means, for each type but the keyed Python one, where `model_dump` gives the nested dicts of the
  -- model. The prices of a grid must be in order, and the comparisons of rules without terms.
  pub config-built :
      (model_dump : CustomRulesSpec D → Fields D) (modules : List (String × Decorated D S))
      (reg : Registry D S) (config : StrategyConfig D) (strategy : Strategy D S)
      → ((s : CustomRulesSpec D) → model_dump s ≡ dump_custom_rules s)
      → check_config config ≡ ok tt
      → strategy_meant config ≡ some strategy
      → build_strategy py model_dump modules reg config ≡ ok (reg, strategy)
  unfolding check_config build_strategy strategy_meant from_config
  config-built model_dump modules reg (dca s) b hd h m = rw (dca-builds s h) (meant reg m)
  config-built model_dump modules reg (grid s) b hd h m =
      elim (Bool-cases (s.upper_price ⩽ s.lower_price)) [
        | inl o ↦ absurd (ground arith)
        | inr o ↦ rw (grid-builds s h o) (meant-else reg (s.upper_price ⩽ s.lower_price) o m)
      ]
  config-built model_dump modules reg (ma_crossover s) b hd h m =
      rw (ma_crossover-builds s h) (meant reg m)
  config-built model_dump modules reg (custom_rules s) b hd h m =
      elim (Bool-cases (are_plain_rules s.rules)) [
        | inl o ↦
            let e = accepted-builds py s h o in
            rw (hd s) (rw e (meant-then reg (are_plain_rules s.rules) o m))
        | inr o ↦ absurd (ground arith)
      ]
  config-built model_dump modules reg (ai_signal s) b hd h m =
      rw (ai_signal-builds s h) (meant reg m)
  config-built model_dump modules reg (python s) b hd h m = absurd (ground arith)
