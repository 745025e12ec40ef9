-- ===== src/Strategy/Dca/Tests.antt =====
-- Runs of the DCA strategy, and its theorems at concrete inputs.
use xbottrader.Prelude.{value_error, ok, raised, ◌≡◌, refl, none, some, List, [], ◌∷◌}
use xbottrader.Decimal.Whole.{ℤ, pos, whole, ℤ-HasSigns}
use xbottrader.Fixtures.{bar_at, fresh}
use xbottrader.Strategy.Base.{Bar, StrategyState}
use xbottrader.Strategy.Runs.{Log, run}
use xbottrader.Strategy.Dca.{DcaParams, dca_params, on_bar}
use xbottrader.Strategy.Dca.Spacing.{purchase, IsSpaced, dca_run-IsSpaced}

-- 100 every hour
abbrev hourly : DcaParams ℤ
hourly = record { symbol = "BTC/USDT"; quote_amount = pos 100; interval_minutes = 60 }

-- the second bar comes too early
abbrev bars : List (Bar ℤ)
bars = bar_at 0 10 ∷ bar_at 60000 11 ∷ bar_at 3600000 20 ∷ []

two_buys :
    run (on_bar hourly) bars (fresh tt)
    ≡ ok (
      (bar_at 0 10, purchase hourly (bar_at 0 10))
          ∷ (bar_at 3600000 20, purchase hourly (bar_at 3600000 20))
          ∷ [],
      record { last_action_ts_ms = some 3600000; custom = tt },
    )
unfolding run on_bar
two_buys = refl

interval_required :
    dca_params (record hourly { interval_minutes = 0 })
    ≡ raised (value_error "interval_minutes must be positive")
unfolding dca_params
interval_required = refl

dca_run-IsSpaced_example :
    (log : Log (Bar ℤ) ℤ) × (t : StrategyState Unit) × (run (on_bar hourly) bars (fresh tt)
      ≡ ok (log, t))
    × IsSpaced hourly none log
unfolding dca_params
dca_run-IsSpaced_example = dca_run-IsSpaced ℤ-HasSigns hourly bars (fresh tt) refl
