-- ===== src/Strategy/Momentum/Tests.antt =====
-- Runs of the momentum strategy, and its theorem at a concrete input.
use xbottrader.Prelude.{ok, ◌≡◌, refl, false, none, some, List, [], ◌∷◌}
use xbottrader.Decimal.Whole.{ℤ, pos, whole, ℤ-HasSigns}
use xbottrader.Fixtures.{bar_at, fresh}
use xbottrader.Strategy.Base.{buy, sell, Bar, number_tag, market_intent, market_order}
use xbottrader.Strategy.Runs.{run, Accepts}
use xbottrader.Strategy.Window.{push_close}
use xbottrader.Strategy.Position.{PositionStep}
use xbottrader.Strategy.Momentum.{
  MomentumParams, MomentumSlots, momentum_params, momentum_signal, on_bar,
}
use xbottrader.Strategy.Momentum.Alternation.{Holds, momentum_run-PositionStep}

abbrev five_percent : MomentumParams ℤ
five_percent = record {
  symbol = "BTC/USDT";
  lookback = 1;
  threshold_pct = pos 5;
  quote_amount = pos 200;
}

abbrev empty : MomentumSlots ℤ
empty = record { closes = []; position = record { in_position = false; held_qty = none } }

abbrev bars : List (Bar ℤ)
bars = bar_at 0 50 ∷ bar_at 1 100 ∷ bar_at 2 120 ∷ bar_at 3 40 ∷ []

up_and_down :
    run (on_bar five_percent) bars (fresh empty)
    ≡ ok (
      (bar_at 1 100, market_intent "BTC/USDT" buy (pos 2) (number_tag "momentum-up" 1))
          ∷ (bar_at 3 40, market_intent "BTC/USDT" sell (pos 2) (number_tag "momentum-down" 3))
          ∷ [],
      fresh (record {
        closes = pos 120 ∷ pos 40 ∷ [];
        position = record { in_position = false; held_qty = some none };
      }),
    )
unfolding run on_bar momentum_signal market_order push_close
up_and_down = refl

momentum_run-PositionStep_example :
    Accepts PositionStep Holds none (run (on_bar five_percent) bars (fresh empty))
unfolding momentum_params
momentum_run-PositionStep_example =
    momentum_run-PositionStep ℤ-HasSigns five_percent refl bars (fresh empty) none refl
