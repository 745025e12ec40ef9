-- ===== src/Llm/Author.antt =====
-- apps/ai-engine/app/llm/author.py: a strategy in words becomes a configuration. The language model is a
-- parameter, a function of the conversation; so is pydantic's reading of the fields of
-- `CustomRulesParams`, before its validators. The texts of the messages are constructors.
pub mod Repair
mod Tests
use xbottrader.Config.Schema.{CustomRulesSpec, custom_rules, check_custom_rules}
use xbottrader.Strategy.Value.{
  Value, null, text, number, decimal, list, dict, Values, no_items, item, Fields, end, field,
  Coercions, get_default, to_str,
}
use xbottrader.Decimal.{Decimal}
use xbottrader.Prelude.{
  ◌==◌, if◌then◌else◌, Exception, value_error, runtime_error, key_error, type_error, index_error,
  assertion_error, invalid_operation, internal_auth_error, attribute_error, ai_engine_error,
  equity_data_error, Result, raised, ok, raise_if, ◌>>=◌, ◌>>◌, ℕ, zero, suc, ◌+◌, String, Bool,
  true, false, not, List, [], ◌∷◌, ◌++◌, str_eq,
}
use Prim.Native.String.{count}
use xbottrader.Config.Factory.{from_config}

-- a text of the conversation: the request with the symbol and the description, the summary of an
-- attempt by the numbers of its indicators and rules, and the complaint about it
pub data Message : Type 0 where
  request : String → String → Message
  attempt : ℕ → ℕ → Message
  complaint : Exception → Message

pub record AuthorResult (D : Type 0) : Type 0 where
  pub strategy : CustomRulesSpec D
  pub explanation : String
  pub usage : List (String × ℕ)

-- A call of `author`: what it returns or raises, and the conversations that it has sent.
pub record Authored (D : Type 0) : Type 0 where
  pub outcome : Result (AuthorResult D)
  pub sent : List (List Message)

-- `except (ValueError, KeyError, TypeError)`
abbrev pub is_caught : Exception → Bool
is_caught (value_error message) = true
is_caught (key_error message) = true
is_caught (type_error message) = true
is_caught (runtime_error message) = false
is_caught (index_error message) = false
is_caught (assertion_error message) = false
is_caught (invalid_operation message) = false
is_caught (internal_auth_error message) = false
is_caught (attribute_error message) = false
is_caught (ai_engine_error message) = false
is_caught (equity_data_error message) = false

-- `total[k] = total.get(k, 0) + v`
abbrev pub add_usage : String → ℕ → List (String × ℕ) → List (String × ℕ)
add_usage key n [] = (key, n) ∷ []
add_usage key n ((k, m) ∷ rest) =
    let later = add_usage key n rest in if str_eq k key then (k, m + n) ∷ rest else (k, m) ∷ later

-- `_accumulate`
unfoldable pub accumulate : List (String × ℕ) → List (String × ℕ) → List (String × ℕ)
accumulate total [] = total
accumulate total ((key, n) ∷ usage) = accumulate (add_usage key n total) usage

-- `MAX_REPAIRS`
abbrev pub max_repairs : ℕ
max_repairs = 2

module _ {D : Type 0} ⦃d : Decimal D⦄ where
  abbrev pub length_of : Values D → ℕ
  length_of no_items = 0
  length_of (item v vs) = suc (length_of vs)

  abbrev pub count_fields : Fields D → ℕ
  count_fields end = 0
  count_fields (field key v rest) = suc (count_fields rest)

  -- `len(x or [])`
  abbrev pub len : Value D → Result ℕ
  len null = ok 0
  len (text s) = ok (count s)
  len (number n) = raise_if (not (n == 0)) (type_error "object has no len()") >> ok 0
  len (decimal x) = raise_if (not (d.eq x (d.of_ℕ 0))) (type_error "object has no len()") >> ok 0
  len (list vs) = ok (length_of vs)
  len (dict fields) = ok (count_fields fields)

  -- `_summarize_attempt`
  unfoldable pub summarize_attempt : Fields D → Result Message
  summarize_attempt tool_input = do
    n_ind ← len (get_default "indicators" (list no_items) tool_input)
    n_rules ← len (get_default "rules" (list no_items) tool_input)
    ok (attempt n_ind n_rules)

module _ {D : Type 0} ⦃d : Decimal D⦄ (py : Coercions D) (strip : String → String)
    (model_dump : CustomRulesSpec D → Fields D)
    (read_fields : Fields D → Result (CustomRulesSpec D))
    (complete : List Message → Result (Fields D × List (String × ℕ))) where
  -- `_validate`
  unfoldable pub validate : Fields D → String → Result (CustomRulesSpec D)
  validate tool_input symbol = do
    params ← read_fields (
        field "strategy_type" (text "custom_rules") (
          field "symbol" (text symbol) (
            field "indicators" (get_default "indicators" (list no_items) tool_input)
              (field "rules" (get_default "rules" (list no_items) tool_input) end))))
    check_custom_rules params
    built ← from_config py model_dump params
    ok params

  -- the rest of a turn of the loop, after the call and `_validate`; the loop goes on by `again`
  unfoldable pub conclude :
      Fields D
      → List (String × ℕ)
      → List Message
      → Result (CustomRulesSpec D)
      → (List Message → Authored D)
      → Authored D
  unfolding summarize_attempt
  conclude tool_input usage messages (ok strategy) again =
      let told = to_str py (get_default "explanation" (text "") tool_input) in
      record {
        outcome = ok (record { strategy = strategy; explanation = strip told; usage = usage });
        sent = [];
      }
  conclude tool_input usage messages (raised e) again =
      if is_caught e
      then elim (summarize_attempt tool_input) [
        | raised e' ↦ record { outcome = raised e'; sent = [] }
        | ok summary ↦ again (messages ++ summary ∷ complaint e ∷ [])
      ]
      else record { outcome = raised e; sent = [] }

  abbrev pub after_call : List Message → Authored D → Authored D
  after_call messages rest = record { outcome = rest.outcome; sent = messages ∷ rest.sent }

  -- a turn of the loop, on the answer of the model to the conversation
  unfoldable pub on_answer :
      String
      → List Message
      → List (String × ℕ)
      → Result (Fields D × List (String × ℕ))
      → (List Message → List (String × ℕ) → Authored D)
      → Authored D
  unfolding conclude validate accumulate
  on_answer symbol messages total (raised e) again = record {
    outcome = raised e;
    sent = messages ∷ [];
  }
  on_answer symbol messages total (ok (tool_input, usage)) again =
      let total' = accumulate total usage in
      after_call messages (
        conclude tool_input total' messages (validate tool_input symbol)
          (λ longer. again longer total'))

  -- the loop of `author`, with the turns that are left
  unfoldable pub attempts : String → ℕ → List Message → List (String × ℕ) → Authored D
  unfolding on_answer
  attempts symbol zero messages total = record {
    outcome = raised (value_error "could not author a valid strategy");
    sent = [];
  }
  attempts symbol (suc left) messages total =
      on_answer symbol messages total (complete messages) (attempts symbol left)

  -- `author`
  unfoldable pub author : String → String → Authored D
  unfolding attempts
  author description symbol = attempts symbol (max_repairs + 1) (request symbol description ∷ []) []
