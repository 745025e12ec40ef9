-- ===== src/Llm/Signal.antt =====
-- apps/ai-engine/app/llm/signal.py: one decision of the language model, whose forced tool call is a
-- parameter.
pub mod Action
mod Tests
use xbottrader.Strategy.Value.{
  Value, null, text, number, decimal, list, dict, Fields, Coercions, find_key, get_default, to_str,
}
use xbottrader.Strategy.Base.{buy, sell}
use xbottrader.Prelude.{
  if◌then◌else◌, Result, ok, ◌>>=◌, ◌>>◌, ℕ, String, Bool, ◌||◌, Option, none, some, List, str_eq,
}

pub record SignalResult : Type 0 where
  pub action : String
  pub reason : String
  pub usage : List (String × ℕ)

-- what the prompt is made of
pub record SignalPrompt (D : Type 0) : Type 0 where
  pub symbol : String
  pub position : D
  pub guidance : Option String
  pub closes : List D

-- `x or default` for a text
abbrev pub or_text : Option String → String → String
or_text none default = default
or_text (some s) default = if str_eq s "" then default else s

abbrev pub is_action : String → Bool
is_action s = str_eq s "buy" || str_eq s "sell" || str_eq s "hold"

abbrev pub action_text : {D : Type 0} → Option (Value D) → String
action_text (some (text s)) = if is_action s then s else "hold"
action_text (some null) = "hold"
action_text (some (number n)) = "hold"
action_text (some (decimal x)) = "hold"
action_text (some (list vs)) = "hold"
action_text (some (dict fields)) = "hold"
action_text none = "hold"

module _ {D : Type 0} (py : Coercions D) (strip : String → String) (default_model : String)
    (complete : SignalPrompt D → String → Result (Fields D × List (String × ℕ))) where
  -- `SignalAdvisor.decide`, given the prompt and the model
  unfoldable pub decide_action : SignalPrompt D → Option String → Result SignalResult
  decide_action prompt model = do
    answer ← complete prompt (or_text model default_model)
    ok (record {
      action = action_text (find_key "action" answer.0);
      reason = strip (to_str py (get_default "reason" (text "") answer.0));
      usage = answer.1;
    })
