-- ===== src/Exchange/CcxtLive/Tests.antt =====
-- A market polled four times, with a candle that comes twice.
use xbottrader.Exchange.CcxtLive.Increasing.{AreIncreasing, gen-AreIncreasing}
use xbottrader.Exchange.CcxtLive.{Fed, to_bar, gen}
use xbottrader.Prelude.{runtime_error, Result, raised, ok, ℕ, ◌≡◌, refl, true, none, List, [], ◌∷◌}
use xbottrader.Decimal.Whole.{ℤ, pos, whole}

abbrev candle : ℕ → ℕ → List ℕ
candle ts price = ts ∷ price ∷ price ∷ price ∷ price ∷ 1 ∷ []

abbrev polls : List (Result (List (List ℕ)))
polls =
    ok (candle 60 100 ∷ candle 120 101 ∷ [])
    ∷ ok (candle 60 100 ∷ candle 120 102 ∷ [])
    ∷ ok []
    ∷ ok (candle 120 102 ∷ candle 180 103 ∷ [])
    ∷ raised (runtime_error "rate limit")
    ∷ []

abbrev whole_of : ℕ → Result ℤ
whole_of n = ok (pos n)

abbrev times : List (Fed ℤ) → List ℕ
times [] = []
times (f ∷ fs) = f.bar.ts_ms ∷ times fs

polls-times : times (gen (λ n. ok n) whole_of "BTC/USD" true polls none).yielded ≡ 60 ∷ 120 ∷ []
unfolding gen to_bar
polls-times = refl

gen-AreIncreasing_example :
    AreIncreasing
      (λ n. ok n)
      whole_of
      "BTC/USD"
      true
      none
      (gen (λ n. ok n) whole_of "BTC/USD" true polls none).yielded
gen-AreIncreasing_example = gen-AreIncreasing (λ n. ok n) whole_of "BTC/USD" true polls none
