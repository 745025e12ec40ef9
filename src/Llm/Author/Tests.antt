-- ===== src/Llm/Author/Tests.antt =====
-- The repair loop over language models that answer at once, after a complaint, and never.

use xbottrader.Strategy.RuleEngine.Config.{referenced_names}
use xbottrader.Strategy.RuleEngine.Parse.{from_dict}
use xbottrader.Config.Factory.{from_config}
use xbottrader.Config.Dump.{dump_condition, dump_custom_rules}
use xbottrader.Config.Schema.{CustomRulesSpec, check_custom_rules}
use xbottrader.Llm.Author.Repair.{ReturnsBuilt, author-ReturnsBuilt, IsRefused, author-exhausted}
use xbottrader.Llm.Author.{
  Message, request, attempt, complaint, summarize_attempt, validate, author,
}
use xbottrader.Strategy.Value.{text, list, no_items, item, Fields, end, field, find_key}
use xbottrader.Prelude.{
  length, value_error, Result, raised, ok, ℕ, ◌≤◌, String, ◌≡◌, refl, some, List, [], ◌∷◌,
}
use xbottrader.Decimal.Whole.{ℤ, whole}
use xbottrader.Config.Fixtures.{py, dip_rules}

abbrev with_rules : Fields ℤ
with_rules = field "rules" (list (item (text "when the price crosses") no_items)) end

-- a reading that finds the rules of the fixture, where there are rules
abbrev read_fields : Fields ℤ → Result (CustomRulesSpec ℤ)
read_fields fields = elim (find_key "rules" fields) [
  | some (list (item v vs)) ↦ ok dip_rules
  | _ ↦ raised (value_error "at least 1 item")
]

abbrev stubborn : List Message → Result (Fields ℤ × List (String × ℕ))
stubborn messages = ok (end, ("input_tokens", 7) ∷ [])

-- rules only once there has been a complaint
abbrev repairing : List Message → Result (Fields ℤ × List (String × ℕ))
repairing (first ∷ summary ∷ rest) = ok (with_rules, ("input_tokens", 9) ∷ [])
repairing (first ∷ []) = stubborn (first ∷ [])
repairing [] = stubborn []

abbrev trim : String → String
trim s = s

repaired : author py trim dump_custom_rules read_fields repairing "buy the dip" "BTC/USD" ≡ record {
  outcome =
      ok (record { strategy = dip_rules; explanation = ""; usage = ("input_tokens", 16) ∷ [] });
  sent =
      (request "BTC/USD" "buy the dip" ∷ [])
      ∷ (request "BTC/USD" "buy the dip"
          ∷ attempt 0 0
          ∷ complaint (value_error "at least 1 item")
          ∷ [])
      ∷ [];
}
unfolding author check_custom_rules from_config from_dict dump_condition referenced_names
repaired = refl

author-ReturnsBuilt_example :
    ReturnsBuilt py trim dump_custom_rules read_fields repairing
      (author py trim dump_custom_rules read_fields repairing "buy the dip" "BTC/USD").outcome
    × (length (author py trim dump_custom_rules read_fields repairing "buy the dip" "BTC/USD").sent
        ≤ 3)
author-ReturnsBuilt_example =
    author-ReturnsBuilt py trim dump_custom_rules read_fields repairing "buy the dip" "BTC/USD"

stubborn-IsRefused :
    (sent : List Message)
    → IsRefused py trim dump_custom_rules read_fields stubborn "BTC/USD" (stubborn sent)
unfolding validate summarize_attempt
stubborn-IsRefused sent = (value_error "at least 1 item", attempt 0 0, refl, refl, refl)

author-exhausted_example :
    ((author py trim dump_custom_rules read_fields stubborn "buy the dip" "BTC/USD").outcome
      ≡ raised (value_error "could not author a valid strategy"))
    × (length (author py trim dump_custom_rules read_fields stubborn "buy the dip" "BTC/USD").sent
        ≡ 3)
author-exhausted_example =
    author-exhausted py trim dump_custom_rules read_fields stubborn "buy the dip" "BTC/USD"
      stubborn-IsRefused
