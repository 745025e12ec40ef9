-- ===== src/Strategy/AiSignal/Tests.antt =====
-- Runs of the ai_signal strategy, and its theorem at a concrete input.
use xbottrader.Prelude.{ok, ℕ, String, ◌≡◌, refl, Option, none, some, List, [], ◌∷◌, arith}
use xbottrader.Decimal.Whole.{ℤ, pos, whole, ℤ-HasSigns}
use xbottrader.Fixtures.{bar_at, fresh}
use xbottrader.Strategy.Base.{
  Side, buy, sell, Bar, number_tag, OrderIntent, market_intent, market_order,
}
use xbottrader.Strategy.Runs.{run, Accepts}
use xbottrader.Strategy.AiSignal.{
  AiSignalParams, Signal, AiSlots, ai_signal_params, push_window, consume, on_bar, write_signal,
  on_input,
}
use xbottrader.Strategy.AiSignal.Consumption.{AiStep, Holds, ai_signal_run-AiStep}

abbrev params : AiSignalParams ℤ
params = record {
  symbol = "BTC/USDT";
  quote_amount = pos 100;
  decision_interval_minutes = 5;
  lookback_bars = 2;
  guidance = none;
  model = none;
}

abbrev empty : AiSlots ℤ
empty = record { closes = []; signal = none; consumed_seq = none; held_qty = none }

abbrev decision : ℕ → String → Option Signal
decision seq action = some (record { seq = some seq; action = action; reason = ""; ts_ms = 0 })

-- a buy that the next bar does not repeat, an old decision, a sell, and a sell with nothing held
abbrev inputs : List (Option Signal × Bar ℤ)
inputs =
    (decision 1 "buy", bar_at 0 10)
    ∷ (none, bar_at 1 10)
    ∷ (decision 2 "buy", bar_at 2 50)
    ∷ (decision 1 "sell", bar_at 3 50)
    ∷ (decision 3 "sell", bar_at 4 50)
    ∷ (decision 4 "sell", bar_at 5 50)
    ∷ []

abbrev order : Side → ℕ → ℕ → OrderIntent ℤ
order side quantity seq = market_intent "BTC/USDT" side (pos quantity) (number_tag "ai" seq)

three_orders :
    run (on_input params) inputs (fresh empty)
    ≡ ok (
      ((decision 1 "buy", bar_at 0 10), order buy 10 1)
          ∷ ((decision 2 "buy", bar_at 2 50), order buy 2 2)
          ∷ ((decision 3 "sell", bar_at 4 50), order sell 12 3)
          ∷ [],
      record {
        last_action_ts_ms = some 4;
        custom = record {
          closes = pos 50 ∷ pos 50 ∷ [];
          signal = decision 4 "sell";
          consumed_seq = some 4;
          held_qty = some (pos 0);
        };
      },
    )
unfolding run on_input on_bar consume write_signal push_window market_order
three_orders = refl

ai_signal_run-AiStep_example :
    Accepts AiStep Holds
      (record { held = pos 0; seen = 0 })
      (run (on_input params) inputs (fresh empty))
unfolding ai_signal_params
ai_signal_run-AiStep_example =
    ai_signal_run-AiStep ℤ-HasSigns params refl inputs (fresh empty)
      (record { held = pos 0; seen = 0 }) (record { same_held = refl; seen_le = omega arith })
