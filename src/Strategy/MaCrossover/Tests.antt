-- ===== src/Strategy/MaCrossover/Tests.antt =====
-- Runs of the moving-average strategy, and its theorem at a concrete input.
use xbottrader.Prelude.{ok, ◌≡◌, refl, false, none, some, List, [], ◌∷◌}
use xbottrader.Decimal.Whole.{ℤ, pos, whole, ℤ-HasSigns}
use xbottrader.Fixtures.{bar_at, fresh}
use xbottrader.Strategy.Base.{buy, sell, Bar, number_tag, market_intent, market_order}
use xbottrader.Strategy.Runs.{run, Accepts}
use xbottrader.Strategy.Window.{push_close}
use xbottrader.Strategy.Position.{PositionStep}
use xbottrader.Strategy.MaCrossover.{
  MaCrossoverParams, MaSlots, ma_crossover_params, is_above_of, ma_trade, on_bar,
}
use xbottrader.Strategy.MaCrossover.Alternation.{Holds, ma_run-PositionStep}

abbrev two_three : MaCrossoverParams ℤ
two_three = record {
  symbol = "BTC/USDT";
  fast_period = 2;
  slow_period = 3;
  position_quote = pos 100;
}

abbrev empty : MaSlots ℤ
empty = record {
  closes = [];
  was_above = none;
  position = record { in_position = false; held_qty = none };
}

abbrev bars : List (Bar ℤ)
bars =
    bar_at 0 30
    ∷ bar_at 1 20
    ∷ bar_at 2 10
    ∷ bar_at 3 50
    ∷ bar_at 4 50
    ∷ bar_at 5 5
    ∷ bar_at 6 5
    ∷ []

-- the fast average rises above the slow one on the fourth bar and falls below it on the sixth
one_round :
    run (on_bar two_three) bars (fresh empty)
    ≡ ok (
      (bar_at 3 50, market_intent "BTC/USDT" buy (pos 2) (number_tag "ma-cross-up" 3))
          ∷ (bar_at 5 5, market_intent "BTC/USDT" sell (pos 2) (number_tag "ma-cross-down" 5))
          ∷ [],
      fresh (record {
        closes = pos 50 ∷ pos 5 ∷ pos 5 ∷ [];
        was_above = some false;
        position = record { in_position = false; held_qty = some none };
      }),
    )
unfolding run on_bar ma_trade is_above_of market_order push_close mathlib.Core.Bool.xor
one_round = refl

ma_run-PositionStep_example :
    Accepts PositionStep Holds none (run (on_bar two_three) bars (fresh empty))
unfolding ma_crossover_params
ma_run-PositionStep_example =
    ma_run-PositionStep ℤ-HasSigns two_three refl bars (fresh empty) none refl
