-- ===== src/Strategy/Momentum/Params.antt =====
-- packages/xbt-core/xbt_core/strategies/python/momentum.py: the parameters out of the free-form dict.
use xbottrader.Prelude.{Result, ◌>>=◌}
use xbottrader.Decimal.{Decimal}
use xbottrader.Strategy.Value.{Fields, Coercions, get_item, to_str, to_int, to_decimal}
use xbottrader.Strategy.Momentum.{MomentumParams, momentum_params}

module _ {D : Type 0} ⦃d : Decimal D⦄ (py : Coercions D) where
  -- `MomentumParams.from_params`; the strategy's `from_params` wraps the parameters
  unfoldable pub from_params : Fields D → Result (MomentumParams D)
  from_params params = do
    symbol ← get_item "symbol" params
    told ← get_item "lookback" params
    lookback ← to_int py told
    threshold ← get_item "threshold_pct" params
    threshold_pct ← to_decimal py threshold
    amount ← get_item "quote_amount" params
    quote_amount ← to_decimal py amount
    momentum_params (record {
      symbol = to_str py symbol;
      lookback = lookback;
      threshold_pct = threshold_pct;
      quote_amount = quote_amount;
    })
