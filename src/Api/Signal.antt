-- ===== src/Api/Signal.antt =====
-- `strategy_signal` of apps/ai-engine/app/api/routes.py, with what it is served behind. The dependency
-- `internal_identity` of this file is the text of the one of the bot engine.
use xbottrader.Api.Bots.{internal_identity}
use xbottrader.Api.Requests.{SignalRequest, check_signal}
use xbottrader.Api.{Response, answer, http_error, unhandled, message}
use xbottrader.Llm.Signal.{SignalResult, SignalPrompt, decide_action}
use xbottrader.Decimal.Whole.{ℤ, whole}
use xbottrader.Auth.{Request, Primitives, InternalAuthenticator}
use xbottrader.Strategy.Value.{
  Value, Values, null, text, number, list, dict, no_items, item, Fields, end, field, find_key,
  Coercions,
}
use xbottrader.Decimal.{Decimal, zero_of}
use mathlib.Core.Option.{map as option_map}
use xbottrader.Prelude.{
  if◌then◌else◌, str_eq, value_error, internal_auth_error, Result, raised, ok, ◌>>◌, ℕ, String,
  Option, none, some, List, [], ◌∷◌,
}

-- The fields of the request model, by their types; `coerce` is pydantic's reading of a `Decimal`.
module _ {D : Type 0} ⦃d : Decimal D⦄ (coerce : Value D → Option D) where
  -- `str`
  abbrev pub string_of : Option (Value D) → Option String
  string_of (some (text s)) = some s
  string_of v = none

  -- `str | None = None`
  abbrev pub optional_string : Option (Value D) → Option (Option String)
  optional_string none = some none
  optional_string (some null) = some none
  optional_string (some (text s)) = some (some s)
  optional_string v = none

  -- `list[Decimal]`
  abbrev pub decimals_of : Values D → Option (List D)
  decimals_of no_items = some []
  decimals_of (item v vs) =
      let rest = decimals_of vs in
      elim (coerce v) [ none ↦ none | some x ↦ option_map (λ (xs : List D). x ∷ xs) rest ]

  abbrev pub decimal_list : Option (Value D) → Option (List D)
  decimal_list (some (list vs)) = decimals_of vs
  decimal_list v = none

  -- `Decimal = Decimal(0)`
  abbrev pub decimal_or_zero : Option (Value D) → Option D
  decimal_or_zero none = some (zero_of D)
  decimal_or_zero (some v) = coerce v

  abbrev pub model_of :
      Option String
      → Option (List D)
      → Option D
      → Option (Option String)
      → Option (Option String)
      → Option (SignalRequest D)
  model_of (some symbol) (some closes) (some position) (some guidance) (some model) = some (record {
    symbol = symbol;
    closes = closes;
    position = position;
    guidance = guidance;
    model = model;
  })
  model_of symbol closes position guidance model = none

  unfoldable pub signal_model : Option (Fields D) → Option (SignalRequest D)
  signal_model none = none
  signal_model (some fields) =
      model_of (string_of (find_key "symbol" fields)) (decimal_list (find_key "closes" fields))
        (decimal_or_zero (find_key "position" fields))
        (optional_string (find_key "guidance" fields)) (optional_string (find_key "model" fields))

-- the request model, where the fields have the right types
abbrev pub read_body : {D : Type 0} → Option (SignalRequest D) → Result (SignalRequest D)
read_body none = raised (value_error "unprocessable")
read_body (some r) = check_signal r >> ok r

abbrev pub prompt_of : {D : Type 0} → SignalRequest D → SignalPrompt D
prompt_of r = record {
  symbol = r.symbol;
  position = r.position;
  guidance = r.guidance;
  closes = r.closes;
}

abbrev pub respond : Result SignalResult → Response SignalResult
respond (raised e) = unhandled e
respond (ok r) = answer r

module _ {B D : Type 0} ⦃d : Decimal D⦄ (lib : Primitives B) (lower : String → String)
    (py : Coercions D) (strip : String → String) (default_model : String)
    (complete : SignalPrompt D → String → Result (Fields D × List (String × ℕ)))
    (loads : B → Option (Fields D)) (coerce : Value D → Option D) where
  -- the body of the route, given its request model or what is wrong with it
  unfoldable pub strategy_signal : Result (SignalRequest D) → Response SignalResult
  strategy_signal (raised e) = http_error 422 (message e)
  strategy_signal (ok r) =
      respond (decide_action py strip default_model complete (prompt_of r) r.model)

  abbrev pub identified : Result String → Response SignalResult → Response SignalResult
  identified (ok user_id) route = route
  identified (raised (internal_auth_error m)) route = http_error 401 m
  identified (raised e) route = unhandled e

  -- `@router.post("/strategy/signal")`
  abbrev pub routed : Request B → Response SignalResult → Response SignalResult
  routed request route =
      if str_eq request.path "/strategy/signal"
      then (if str_eq request.method "POST" then route else http_error 405 "Method Not Allowed")
      else http_error 404 "Not Found"

  -- the route behind its dependency
  unfoldable pub serve_signal : InternalAuthenticator B → ℤ → Request B → Response SignalResult
  unfolding signal_model
  serve_signal auth clock request = routed request (
      identified (internal_identity lib lower auth request clock)
        (strategy_signal (read_body (signal_model coerce (loads request.body)))))

-- the JSON of a `SignalResponse`
abbrev pub usage_fields : {D : Type 0} → List (String × ℕ) → Fields D
usage_fields [] = end
usage_fields ((k, n) ∷ rest) = field k (number n) (usage_fields rest)

abbrev pub signal_response : {D : Type 0} → SignalResult → Fields D
signal_response r =
    field "action" (text r.action)
      (field "reason" (text r.reason) (field "usage" (dict (usage_fields r.usage)) end))
