-- ===== src/Backtest/Engine/Tests.antt =====
-- A backtest of the DCA strategy, and its theorem at a concrete input.
use xbottrader.Prelude.{ok, ◌>>=◌, ◌≡◌, refl, List, [], ◌∷◌}
use xbottrader.Decimal.Whole.{ℤ, pos, whole, ℤ-IsExact}
use xbottrader.Fixtures.{bar_at}
use xbottrader.Strategy.Base.{Bar, market_order}
use xbottrader.Strategy.Dca.{DcaParams, on_bar}
use xbottrader.Exchange.Base.{Draws}
use xbottrader.Exchange.Paper.{
  PaperConfig, rest_order, pop_orders, apply_slippage, build_fill, match_loop, match_resting,
  update_mark, place_market, place_order,
}
use xbottrader.Runtime.Trading.{live_run}
use xbottrader.Backtest.Engine.{
  book_fill, book_fills, drawdown_loop, max_drawdown_pct, book_intents, replay, run_backtest,
}
use xbottrader.Backtest.Engine.Parity.{pnl_curve, new_desk, run_backtest-eq-live_run}

abbrev draws : Draws
draws = record { ids = λ n. "id"; utc = λ n. n }

-- buys for 100 each minute
abbrev plan : DcaParams ℤ
plan = record { symbol = "BTC/USDT"; quote_amount = pos 100; interval_minutes = 1 }

abbrev config : PaperConfig
config = record { slippage_bps = 1000; fee_bps = 1000; fee_currency = "USDT" }

abbrev bars : List (Bar ℤ)
bars = bar_at 0 50 ∷ bar_at 30000 40 ∷ bar_at 60000 20 ∷ bar_at 90000 70 ∷ []

-- 2 at 55 with a fee of 11, and 5 at 22 with a fee of 11
curve_of_the_plan :
    (do result ← run_backtest draws (on_bar plan) config bars tt (pos 1000); ok result.equity_curve)
    ≡ ok ((0, pos 979) ∷ (30000, pos 959) ∷ (60000, pos 898) ∷ (90000, pos 1248) ∷ [])
unfolding run_backtest replay book_intents book_fills book_fill update_mark match_resting match_loop
    build_fill place_order place_market apply_slippage rest_order pop_orders on_bar market_order
    max_drawdown_pct drawdown_loop
curve_of_the_plan = refl

run_backtest-eq-live_run_example :
    (do result ← run_backtest draws (on_bar plan) config bars tt (pos 1000); ok result.equity_curve)
    ≡ (do
      desks ← live_run draws (on_bar plan) bars (new_desk config tt)
      ok (pnl_curve (pos 1000) bars desks))
run_backtest-eq-live_run_example =
    run_backtest-eq-live_run ℤ-IsExact draws (on_bar plan) config bars tt (pos 1000)
