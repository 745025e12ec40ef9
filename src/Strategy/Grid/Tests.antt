-- ===== src/Strategy/Grid/Tests.antt =====
-- Runs of the grid strategy, and its theorem at a concrete input.
use xbottrader.Prelude.{ok, ℕ, String, ◌≡◌, refl, none, some, List, [], ◌∷◌}
use xbottrader.Decimal.Whole.{ℤ, pos, whole, ℤ-IsOrdered, ℤ-HasSigns}
use xbottrader.Fixtures.{bar_at, fresh}
use xbottrader.Strategy.Base.{
  Side, buy, sell, Bar, price_tag, OrderIntent, market_intent, market_order,
}
use xbottrader.Strategy.Runs.{run, Accepts}
use xbottrader.Strategy.Grid.{GridParams, GridSlots, grid_params, quote_per_level, trade, on_bar}
use xbottrader.Strategy.Grid.Lots.{LotStep, HoldsLots, grid_run-LotStep}

-- lines at 10, 20, 30, and 60 for each of the two intervals
abbrev grid : GridParams ℤ
grid = record {
  symbol = "BTC/USDT";
  lower_price = pos 10;
  upper_price = pos 30;
  grid_levels = 3;
  total_quote = pos 120;
}

abbrev empty : GridSlots ℤ
empty = record { prev_close = none; lots = [] }

abbrev bars : List (Bar ℤ)
bars = bar_at 0 35 ∷ bar_at 1 15 ∷ bar_at 2 25 ∷ bar_at 3 40 ∷ bar_at 4 50 ∷ []

abbrev order : Side → ℕ → String → ℕ → OrderIntent ℤ
order side quantity prefix line =
    market_intent "BTC/USDT" side (pos quantity) (price_tag prefix (pos line))

-- the fall crosses 30 and 20, and the rises cross 20 and then 30
down_and_up :
    run (on_bar grid) bars (fresh empty)
    ≡ ok (
      (bar_at 1 15, order buy 2 "grid-buy" 30)
          ∷ (bar_at 1 15, order buy 3 "grid-buy" 20)
          ∷ (bar_at 2 25, order sell 3 "grid-sell" 20)
          ∷ (bar_at 3 40, order sell 2 "grid-sell" 30)
          ∷ [],
      fresh (record { prev_close = some (pos 50); lots = [] }),
    )
unfolding run on_bar trade quote_per_level market_order
down_and_up = refl

grid_run-LotStep_example : Accepts LotStep HoldsLots [] (run (on_bar grid) bars (fresh empty))
unfolding grid_params
grid_run-LotStep_example =
    grid_run-LotStep ℤ-IsOrdered ℤ-HasSigns grid refl bars (fresh empty) [] (refl, tt)
