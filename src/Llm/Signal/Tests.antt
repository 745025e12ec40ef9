-- ===== src/Llm/Signal/Tests.antt =====
-- A decision on whole numbers.

use xbottrader.Llm.Signal.Action.{decide_action-IsAction}
use xbottrader.Llm.Signal.{SignalResult, SignalPrompt, is_action, decide_action}
use xbottrader.Strategy.Value.{text, Fields, end, field, find_key}
use xbottrader.Prelude.{Result, ok, ℕ, String, ◌≡◌, refl, true, none, some, List, [], ◌∷◌}
use xbottrader.Decimal.Whole.{ℤ, pos, whole}
use xbottrader.Config.Fixtures.{py}

abbrev prompt : SignalPrompt ℤ
prompt = record {
  symbol = "BTC/USD";
  position = pos 0;
  guidance = none;
  closes = pos 100 ∷ pos 101 ∷ [];
}

abbrev trim : String → String
trim s = s

abbrev said_sell : Fields ℤ
said_sell = field "action" (text "sell") (field "reason" (text "falling") end)

abbrev seller : SignalPrompt ℤ → String → Result (Fields ℤ × List (String × ℕ))
seller asked model = ok (said_sell, ("output_tokens", 12) ∷ [])

abbrev shouter : SignalPrompt ℤ → String → Result (Fields ℤ × List (String × ℕ))
shouter asked model = ok (field "action" (text "SELL") end, [])

shout-hold :
    decide_action py trim "default" shouter prompt none
    ≡ ok (record { action = "hold"; reason = ""; usage = [] })
unfolding decide_action
shout-hold = refl

decide_action-IsAction_example :
    (r : SignalResult) × (decide_action py trim "default" seller prompt none ≡ ok r)
    × (is_action r.action ≡ true)
    × ((s : String)
        → find_key "action" said_sell ≡ some (text s)
        → is_action s ≡ true
        → r.action ≡ s)
decide_action-IsAction_example =
    decide_action-IsAction py trim "default" seller prompt none
      (said_sell, ("output_tokens", 12) ∷ []) refl
