-- ===== src/Launch/Demo/Tests.antt =====
-- A walk of three bars in whole numbers.
use xbottrader.Launch.Demo.{synthetic_bars}
use xbottrader.Exchange.CcxtLive.{Fed}
use xbottrader.Decimal.Whole.{ℤ, pos, whole}
use xbottrader.Prelude.{ℕ, ◌≡◌, refl, List, [], ◌∷◌}

abbrev walk : List (Fed ℤ)
walk =
    synthetic_bars "BTC/USDT" 5000 (record { price = pos 50000; ts_ms = 0 })
      (pos 0 ∷ pos 10000 ∷ pos 0 ∷ [])

abbrev prices : List (Fed ℤ) → List (ℕ × ℤ)
prices [] = []
prices (f ∷ fs) = (f.bar.ts_ms, f.bar.close) ∷ prices fs

three_prices : prices walk ≡ (0, pos 50000) ∷ (5000, pos 50000) ∷ (10000, pos 100000) ∷ []
unfolding synthetic_bars
three_prices = refl
