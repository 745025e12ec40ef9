-- ===== src/Launch/Demo.antt =====
-- apps/bot-engine/app/launchers/demo_paper.py: a random walk of prices and the launch of a demo bot. The changes in
-- basis points that are drawn are an input, and so is what the row in the database comes to.
pub mod Walk
mod Tests
use xbottrader.Launch.Production.{symbol_of}
use xbottrader.Runtime.Companion.{Companion, build_ai_companion}
use xbottrader.Config.Schema.{CustomRulesSpec, StrategyConfig}
use xbottrader.Config.Registry.{Registry, Decorated}
use xbottrader.Config.Factory.{Strategy, build_strategy}
use xbottrader.Exchange.Paper.{PaperConfig, default_config, close}
use xbottrader.Exchange.CcxtLive.{Fed}
use xbottrader.Strategy.Value.{Fields, Coercions}
use xbottrader.Strategy.Base.{Bar}
use xbottrader.Decimal.{Decimal, ◌⊕◌, ◌⊗◌, ◌⊘◌, zero_of, is_nonpos}
use xbottrader.Prelude.{
  if◌then◌else◌, Result, ok, ◌>>=◌, ◌>>◌, ℕ, ◌+◌, String, true, Option, some, List, [], ◌∷◌,
}

-- the local variables of `_gen` and the price
pub record Walker (D : Type 0) : Type 0 where
  pub price : D
  pub ts_ms : ℕ

module _ {D : Type 0} ⦃d : Decimal D⦄ where
  -- `self._price *= …`, and 1 in place of a price that is not positive
  abbrev pub next_price : D → D → D
  next_price price change =
      let moved = price ⊗ (d.of_ℕ 1 ⊕ change ⊘ d.of_ℕ 10000) in
      if is_nonpos moved then d.of_ℕ 1 else moved

  abbrev pub flat_bar : String → Walker D → Bar D
  flat_bar symbol w = record {
    ts_ms = w.ts_ms;
    symbol = symbol;
    open_price = w.price;
    high = w.price;
    low = w.price;
    close = w.price;
    volume = zero_of D;
  }

  -- `SyntheticBarSource._gen`, a turn of the loop for each change: the mark, then the bar
  unfoldable pub synthetic_bars : String → ℕ → Walker D → List D → List (Fed D)
  synthetic_bars symbol interval_ms w [] = []
  synthetic_bars symbol interval_ms w (change ∷ changes) =
      record { marked = some (symbol, w.price); bar = flat_bar symbol w }
      ∷ synthetic_bars symbol interval_ms
          (record { price = next_price w.price change; ts_ms = w.ts_ms + interval_ms }) changes

-- the plan of a demo bot: the strategy, the prices of the paper exchange and of the bars, and the companion
pub record DemoPlan (D S : Type 0) : Type 0 where
  pub strategy : Strategy D S
  pub config : PaperConfig
  pub symbol : String
  pub start_price : D
  pub companion : Option Companion

module _ {D S : Type 0} ⦃d : Decimal D⦄ (py : Coercions D)
    (model_dump : CustomRulesSpec D → Fields D) (modules : List (String × Decorated D S))
    (ai_client : Option (Option ℕ)) where
  -- `DemoPaperLauncher.launch`, with the registry that it leaves
  unfoldable pub launch_demo :
      Result (Unit {0}) → StrategyConfig D → Registry D S → Result (Registry D S × DemoPlan D S)
  unfolding build_strategy build_ai_companion
  launch_demo saved params reg = do
    saved
    built ← build_strategy py model_dump modules reg params
    companion ← build_ai_companion ai_client true params
    ok (
      built.0,
      record {
        strategy = built.1;
        config = record default_config { slippage_bps = 5; fee_bps = 10 };
        symbol = symbol_of params;
        start_price = d.of_ℕ 50000;
        companion = companion;
      },
    )
