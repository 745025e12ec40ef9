-- ===== src/Clients/AiEngine/Tests.antt =====
-- A consultation with texts as bytes.
use xbottrader.Clients.AiEngine.{AiEngineClient, read_response, payload, signal_request, signal}
use xbottrader.Http.{HttpResponse}
use xbottrader.Clients.AiEngine.Consult.{Delivers, asked_by, signal-decided}
use xbottrader.Runtime.Companion.{Decision}
use xbottrader.Config.Schema.{AiSignalSpec, check_ai_signal}
use xbottrader.Api.Signal.{serve_signal, signal_response}
use xbottrader.Api.Bots.{internal_identity}
use xbottrader.Api.{Response, answer, http_error, unhandled}
use xbottrader.Llm.Signal.{SignalResult, SignalPrompt, is_action}
use xbottrader.Decimal.Whole.{ℤ, pos, whole}
use xbottrader.Config.Fixtures.{py}
use xbottrader.Auth.Fixtures.{noon, plain, gateway, plain-HasLaws}
use xbottrader.Auth.{Request, verify}
use xbottrader.Strategy.Value.{Value, text, decimal, Coercions, Fields, end, field, find_key}
use xbottrader.Prelude.{
  ◌==◌, if◌then◌else◌, str_eq, ai_engine_error, Result, raised, ok, ℕ, String, ◌≡◌, refl, ap, true,
  Option, none, some, List, [], ◌∷◌, arith,
}

abbrev spec : AiSignalSpec ℤ
spec = record {
  symbol = "BTC/USDT";
  quote_amount = pos 50;
  decision_interval_minutes = 15;
  lookback_bars = 3;
  guidance = some "buy dips";
  model = none;
}

abbrev closes : List ℤ
closes = pos 100 ∷ pos 99 ∷ []

abbrev client : AiEngineClient String
client = record { base_url = "http://ai"; auth = gateway; max_daily_consults = none }

abbrev said : Fields ℤ × List (String × ℕ)
said = (field "action" (text "buy") (field "reason" (text "dip") end), ("output_tokens", 9) ∷ [])

abbrev advise : SignalPrompt ℤ → String → Result (Fields ℤ × List (String × ℕ))
advise prompt model = ok said

abbrev show_ℤ : Value ℤ → String
show_ℤ (decimal (pos n)) = if n == 100 then "100" else if n == 99 then "99" else "0"
show_ℤ v = ""

-- three numbers have a text
abbrev shown : Coercions ℤ
shown = record py { show = show_ℤ }

-- the payload as a text, of the one request that is made
abbrev written : Fields ℤ → String
written fields = "{}"

abbrev read : String → Option (Fields ℤ)
read body = some (payload shown (asked_by spec closes (pos 0)))

abbrev read_number : Value ℤ → Option ℤ
read_number (text s) =
    if str_eq s "100" then some (pos 100) else if str_eq s "99" then some (pos 99) else some (pos 0)
read_number v = none

abbrev same : String → String
same s = s

abbrev service : Request String → Response SignalResult
service = serve_signal plain same shown same "model" advise read read_number gateway noon

abbrev reply_to : Response SignalResult → Option (HttpResponse ℤ)
reply_to (answer r) = some (record { status_code = 200; json = ok (signal_response r) })
reply_to (http_error n m) = some (record { status_code = n; json = ok end })
reply_to (unhandled e) = some (record { status_code = 500; json = ok end })

abbrev send : String → Request String → Option (HttpResponse ℤ)
send url q = reply_to (service q)

send-Delivers : Delivers send "http://ai" service
send-Delivers = record { delivered = λ q r h. ap reply_to h }

signal-decided_example :
    (dec : Decision) × (signal plain shown written send client noon "ann"
        (asked_by spec closes (pos 0))
      ≡ ok dec)
    × (is_action dec.action ≡ true)
    × ((s : String)
        → find_key "action" said.0 ≡ some (text s)
        → is_action s ≡ true
        → dec.action ≡ s)
unfolding check_ai_signal payload
signal-decided_example =
    signal-decided plain same shown same "model" advise read read_number written send client noon
      noon "ann" spec closes (pos 0) said plain-HasLaws
      (record { user_name = refl; ts_name = refl; sig_name = refl; type_name = refl }) refl
      (omega arith) send-Delivers refl (refl, (refl, tt)) refl refl (omega arith) (omega arith) refl

-- an unsigned request is refused, and the client says so
refused :
    signal plain shown written
      (λ url q. reply_to (service (record q { headers = [] })))
      client
      noon
      "ann"
      (asked_by spec closes (pos 0))
    ≡ raised (ai_engine_error "ai engine status")
unfolding payload signal read_response signal_request serve_signal internal_identity verify
refused = refl
