-- ===== src/Llm/Signal/Action.antt =====
-- apps/ai-engine/app/llm/signal.py: the action of a decision.
use xbottrader.Llm.Signal.{
  SignalResult, SignalPrompt, or_text, is_action, action_text, decide_action,
}
use xbottrader.Strategy.Value.{
  Value, null, text, number, decimal, list, dict, Fields, Coercions, find_key, get_default, to_str,
}
use xbottrader.Prelude.{
  Bool-cases, Result, ok, ℕ, String, ◌≡◌, refl, inl, inr, true, Option, none, some, List,
}

is_action-action_text : {D : Type 0} (said : Option (Value D)) → is_action (action_text said) ≡ true
is_action-action_text none = refl
is_action-action_text (some (text s)) = elim (Bool-cases (is_action s)) [
  | inl a ↦ rw a a
  | inr a ↦ rw a refl
]
is_action-action_text (some null) = refl
is_action-action_text (some (number n)) = refl
is_action-action_text (some (decimal x)) = refl
is_action-action_text (some (list vs)) = refl
is_action-action_text (some (dict fields)) = refl

kept-action :
    {D : Type 0} (said : Option (Value D)) (s : String)
    → said ≡ some (text s)
    → is_action s ≡ true
    → action_text said ≡ s
kept-action said s h a = rw h (rw a refl)

module _ {D : Type 0} (py : Coercions D) (strip : String → String) (default_model : String)
    (complete : SignalPrompt D → String → Result (Fields D × List (String × ℕ))) where
  -- Where the language model answers at all, a decision is made, and its action is "buy", "sell" or
  -- "hold": the action of the answer where that is one of the three.
  pub decide_action-IsAction :
      (prompt : SignalPrompt D) (model : Option String) (answer : Fields D × List (String × ℕ))
      → complete prompt (or_text model default_model) ≡ ok answer
      → (r : SignalResult) × (decide_action py strip default_model complete prompt model ≡ ok r)
        × (is_action r.action ≡ true)
        × ((s : String)
            → find_key "action" answer.0 ≡ some (text s)
            → is_action s ≡ true
            → r.action ≡ s)
  unfolding decide_action
  decide_action-IsAction prompt model answer h =
      let said = find_key "action" answer.0 in
      (
        record {
          action = action_text said;
          reason = strip (to_str py (get_default "reason" (text "") answer.0));
          usage = answer.1;
        },
        rw h refl,
        is_action-action_text said,
        kept-action said,
      )
