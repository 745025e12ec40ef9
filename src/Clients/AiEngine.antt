-- ===== src/Clients/AiEngine.antt =====
-- apps/bot-engine/app/clients/ai_engine.py: the signed call that asks the AI engine for a decision. The
-- JSON text of a dict, the clock and the transport are parameters.
pub mod Consult
mod Tests
use xbottrader.Http.{HttpResponse}
use xbottrader.Runtime.Companion.{Decision}
use xbottrader.Api.Requests.{SignalRequest}
use xbottrader.Llm.Signal.{is_action}
use xbottrader.Decimal.Whole.{ℤ, whole}
use xbottrader.Auth.{Request, Primitives, InternalAuthenticator, sign}
use xbottrader.Strategy.Value.{
  Value, Values, null, text, number, decimal, list, dict, no_items, item, Fields, end, field,
  Coercions, find_key, get_default, to_str,
}
use xbottrader.Prelude.{
  leb, ◌==◌, if◌then◌else◌, value_error, attribute_error, ai_engine_error, Result, raised, ok,
  raise_if, ◌>>=◌, ◌>>◌, ℕ, String, Option, none, some, List, [], ◌∷◌, str_eq,
}

-- `AiEngineClient`, less its transport
pub record AiEngineClient (B : Type 0) : Type 0 where
  pub base_url : String
  pub auth : InternalAuthenticator B
  pub max_daily_consults : Option ℕ

-- `AiEngineClient.__init__`
unfoldable pub ai_engine_client :
    {B : Type 0}
    → (String → String)
    → String
    → InternalAuthenticator B
    → Option ℕ
    → Result (AiEngineClient B)
ai_engine_client rstrip base_url auth max_daily_consults = do
  raise_if (str_eq base_url "") (value_error "AI Engine base_url must be non-empty")
  ok (record { base_url = rstrip base_url; auth = auth; max_daily_consults = max_daily_consults })

-- `_SIGNAL_PATH`
abbrev pub signal_path : String
signal_path = "/strategy/signal"

module _ {D : Type 0} where
  -- the items of `usage` that are numbers
  abbrev pub usage_items : Fields D → List (String × ℕ)
  usage_items end = []
  usage_items (field k (number n) rest) = (k, n) ∷ usage_items rest
  usage_items (field k v rest) = usage_items rest

  -- `(data.get("usage") or {}).items()`, which only a dict has
  abbrev pub usage_of : Option (Value D) → Result (List (String × ℕ))
  usage_of none = ok []
  usage_of (some null) = ok []
  usage_of (some (dict fields)) = ok (usage_items fields)
  usage_of (some (text s)) =
      if str_eq s "" then ok [] else raised (attribute_error "no attribute 'items'")
  usage_of (some (number n)) =
      if n == 0 then ok [] else raised (attribute_error "no attribute 'items'")
  usage_of (some (list no_items)) = ok []
  usage_of (some (list (item v vs))) = raised (attribute_error "no attribute 'items'")
  usage_of (some (decimal x)) = raised (attribute_error "no attribute 'items'")

  -- an action that the client lets through
  abbrev pub valid_action : Option (Value D) → Result String
  valid_action (some (text s)) =
      if is_action s then ok s else raised (ai_engine_error "ai engine returned invalid action")
  valid_action said = raised (ai_engine_error "ai engine returned invalid action")

  -- what `signal` makes of the answer, if there is one
  unfoldable pub read_response : Coercions D → Option (HttpResponse D) → Result Decision
  read_response py none = raised (ai_engine_error "ai engine request failed")
  read_response py (some resp) = do
    raise_if (leb 400 resp.status_code) (ai_engine_error "ai engine status")
    fields ← resp.json
    action ← valid_action (find_key "action" fields)
    usage ← usage_of (find_key "usage" fields)
    ok (record {
      action = action;
      reason = to_str py (get_default "reason" (text "") fields);
      usage = usage;
    })

module _ {D : Type 0} (py : Coercions D) where
  -- `[str(c) for c in closes]`
  abbrev pub decimal_texts : List D → Values D
  decimal_texts [] = no_items
  decimal_texts (x ∷ xs) = item (text (to_str py (decimal x))) (decimal_texts xs)

  -- `if value is not None: payload[key] = value`
  abbrev pub add_text : String → Option String → Fields D → Fields D
  add_text key none rest = rest
  add_text key (some s) rest = field key (text s) rest

  -- the `payload` of `signal`
  unfoldable pub payload : SignalRequest D → Fields D
  payload r = field "symbol" (text r.symbol) (
      field "closes" (list (decimal_texts r.closes)) (
        field "position" (text (to_str py (decimal r.position)))
          (add_text "guidance" r.guidance (add_text "model" r.model end))))

-- `dumps` is the JSON text of a dict in bytes
module _ {B D : Type 0} (lib : Primitives B) (py : Coercions D) (dumps : Fields D → B) where
  -- the request of `signal`, whose arguments are those of a `SignalRequest`
  unfoldable pub signal_request : AiEngineClient B → ℤ → String → SignalRequest D → Request B
  unfolding payload
  signal_request client ts user_id asked =
      let body = dumps (payload py asked) in
      record {
        method = "POST";
        path = signal_path;
        headers =
            ("x-xbt-user", user_id)
            ∷ ("x-xbt-ts", lib.show_int ts)
            ∷ ("x-xbt-sig", sign lib client.auth "POST" signal_path ts user_id body)
            ∷ ("content-type", "application/json")
            ∷ [];
        body = body;
      }

  -- `signal`, where the transport sends a request to a base URL
  unfoldable pub signal :
      (String → Request B → Option (HttpResponse D))
      → AiEngineClient B
      → ℤ
      → String
      → SignalRequest D
      → Result Decision
  unfolding signal_request read_response
  signal post client ts user_id asked =
      read_response py (post client.base_url (signal_request client ts user_id asked))
