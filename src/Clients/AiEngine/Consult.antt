-- ===== src/Clients/AiEngine/Consult.antt =====
-- A consultation of the AI engine by a bot: the client of apps/bot-engine/app/clients/ai_engine.py and the route of
-- apps/ai-engine/app/api/routes.py, one against the other.
use xbottrader.Clients.AiEngine.{
  AiEngineClient, signal_path, usage_items, read_response, payload, add_text, decimal_texts,
  signal_request, signal,
}
use xbottrader.Http.{HttpResponse}
use xbottrader.Runtime.Companion.{Decision}
use xbottrader.Config.Schema.{AiSignalSpec, check_ai_signal}
use xbottrader.Api.Signal.{
  routed, optional_string, decimals_of, signal_model, prompt_of, strategy_signal, serve_signal,
  usage_fields, signal_response,
}
use xbottrader.Api.Bots.{internal_identity}
use xbottrader.Api.{Response, answer}
use xbottrader.Api.Requests.{SignalRequest, not_empty, check_signal, above_zero}
use xbottrader.Llm.Signal.Action.{decide_action-IsAction}
use xbottrader.Llm.Signal.{SignalResult, SignalPrompt, or_text, is_action, decide_action}
use xbottrader.Decimal.Whole.{ℤ, whole}
use xbottrader.Auth.Signed.{HasLaws, signed-verify}
use xbottrader.Auth.{Request, Primitives, filled, distance, verify}
use xbottrader.Strategy.Value.{Value, text, decimal, to_str, end, Fields, Coercions, find_key}
use xbottrader.Decimal.{Decimal}
use xbottrader.Prelude.{
  All, ltb, length, is_empty, Result, ok, raise_if, then-ok, then-both, raise_if-ok, raise_if-none,
  ℕ, ◌≤◌, String, ◌≡◌, refl, ap, ◌∙◌, true, false, ◌||◌, Option, none, some, List, [], ◌∷◌, arith,
  str_eq,
}

-- the four names of headers are in lower case
pub record KeepsNames (lower : String → String) : Type 0 where
  pub user_name : lower "x-xbt-user" ≡ "x-xbt-user"
  pub ts_name : lower "x-xbt-ts" ≡ "x-xbt-ts"
  pub sig_name : lower "x-xbt-sig" ≡ "x-xbt-sig"
  pub type_name : lower "content-type" ≡ "content-type"

-- The transport brings a request to the service, and its answer back with the status 200.
pub record Delivers {B D : Type 0} (post : String → Request B → Option (HttpResponse D))
    (url : String) (serve : Request B → Response SignalResult) : Type 0 where
  pub delivered :
      (q : Request B) (r : SignalResult)
      → serve q ≡ answer r
      → post url q ≡ some (record { status_code = 200; json = ok (signal_response r) })

-- what a bot with an accepted configuration asks
abbrev pub asked_by : {D : Type 0} → AiSignalSpec D → List D → D → SignalRequest D
asked_by spec closes position = record {
  symbol = spec.symbol;
  closes = closes;
  position = position;
  guidance = spec.guidance;
  model = spec.model;
}

not_empty-length : {D : Type 0} (xs : List D) → 2 ≤ length xs → is_empty xs ≡ false
not_empty-length [] h = absurd (omega arith)
not_empty-length (x ∷ xs) h = refl

module _ {D : Type 0} ⦃d : Decimal D⦄ where
  asked-checked :
      (spec : AiSignalSpec D) (closes : List D) (position : D)
      → check_ai_signal spec ≡ ok tt
      → 2 ≤ length closes
      → length closes ≤ spec.lookback_bars
      → check_signal (asked_by spec closes position) ≡ ok tt
  unfolding check_ai_signal check_signal
  asked-checked spec closes position h low high =
      let (symbol, h1) = then-ok (not_empty spec.symbol) _ tt h in
      let (amount, h2) = then-ok (above_zero (some spec.quote_amount)) _ tt h1 in
      let (interval, h3) = then-ok (raise_if (ltb spec.decision_interval_minutes 1) _) _ tt h2 in
      let (bars, guidance) =
        then-ok (raise_if (ltb spec.lookback_bars 2 || ltb 500 spec.lookback_bars) _) _ tt h3 in
      let range = raise_if-ok (ltb spec.lookback_bars 2 || ltb 500 spec.lookback_bars) _ bars in
      then-both _ _ symbol (
        rw (not_empty-length closes low)
          (then-both _ _ (raise_if-none (ltb 500 (length closes)) _ (ground arith)) guidance))

module _ {B D : Type 0} ⦃d : Decimal D⦄ (lib : Primitives B) (lower : String → String)
    (py : Coercions D) (strip : String → String) (default_model : String)
    (complete : SignalPrompt D → String → Result (Fields D × List (String × ℕ)))
    (loads : B → Option (Fields D)) (coerce : Value D → Option D) (dumps : Fields D → B) where
  -- the text of a number is read as the number
  abbrev pub IsReadBack : D → Type 0
  IsReadBack x = coerce (text (to_str py (decimal x))) ≡ some x

  texts-read :
      (xs : List D) → All IsReadBack xs → decimals_of coerce (decimal_texts py xs) ≡ some xs
  texts-read [] h = refl
  texts-read (x ∷ xs) h = rw (h.0, texts-read xs h.1) refl

  options-read :
      (guidance model : Option String)
      → let fields = add_text py "guidance" guidance (add_text py "model" model end) in
        (optional_string coerce (find_key "guidance" fields) ≡ some guidance)
        × (optional_string coerce (find_key "model" fields) ≡ some model)
  options-read none none = (refl, refl)
  options-read none (some m) = (refl, refl)
  options-read (some g) none = (refl, refl)
  options-read (some g) (some m) = (refl, refl)

  -- the fields of the payload are the model of the request
  payload-read :
      (asked : SignalRequest D)
      → All IsReadBack asked.closes
      → IsReadBack asked.position
      → signal_model coerce (some (payload py asked)) ≡ some asked
  unfolding signal_model payload
  payload-read asked h k =
      let (g, m) = options-read asked.guidance asked.model in
      rw (texts-read asked.closes h, k, g, m) refl

  identity-sent :
      (client : AiEngineClient B) (ts clock : ℤ) (user_id : String) (asked : SignalRequest D)
      → HasLaws lib ts
      → KeepsNames lower
      → str_eq user_id "" ≡ false
      → distance clock ts ≤ client.auth.max_skew_seconds
      → internal_identity lib lower client.auth
          (signal_request lib py dumps client ts user_id asked)
          clock
        ≡ ok user_id
  unfolding internal_identity signal_request verify
  identity-sent client ts clock user_id asked laws names filled near = rw names.user_name (
      rw names.ts_name (
        rw names.sig_name (
          rw names.type_name (
            signed-verify lib client.auth "POST" signal_path ts user_id (dumps (payload py asked))
              none clock laws filled near))))

  read_response-answered :
      (r : SignalResult)
      → is_action r.action ≡ true
      → (dec : Decision) × (read_response py
            (some (record { status_code = 200; json = ok (signal_response r) }))
          ≡ ok dec)
        × (dec.action ≡ r.action)
  unfolding read_response
  read_response-answered r h = (
    record {
      action = r.action;
      reason = r.reason;
      usage = usage_items {D = D} (usage_fields r.usage);
    },
    rw h refl,
    refl,
  )

  routed-here :
      (q : Request B) (route : Response SignalResult)
      → q.path ≡ "/strategy/signal"
      → q.method ≡ "POST"
      → routed lib lower py strip default_model complete loads coerce q route ≡ route
  routed-here q route path method = rw (path, method) refl

  serve-answered :
      (client : AiEngineClient B) (clock : ℤ) (q : Request B) (asked : SignalRequest D)
      (user_id : String) (r : SignalResult)
      → internal_identity lib lower client.auth q clock ≡ ok user_id
      → q.path ≡ "/strategy/signal"
      → q.method ≡ "POST"
      → signal_model coerce (loads q.body) ≡ some asked
      → check_signal asked ≡ ok tt
      → decide_action py strip default_model complete (prompt_of asked) asked.model ≡ ok r
      → serve_signal lib lower py strip default_model complete loads coerce client.auth clock q
        ≡ answer r
  unfolding serve_signal strategy_signal
  serve-answered client clock q asked user_id r who path method reads checked decided =
      routed-here q _ path method ∙ rw who (rw reads (rw checked (rw decided refl)))

  -- A bot whose AI-signal configuration was accepted asks for a decision with between 2 closes and as many as the
  -- configuration looks back. Client and service share the secret and their clocks differ by no more than
  -- the window, for a user whose id is not empty; the digests and names of headers keep their laws; the transport
  -- delivers, the JSON text of the payload is parsed back, pydantic reads the texts of its numbers back, and the
  -- language model answers. Then the request is routed and verified and its model accepted, and the client returns
  -- a decision to buy, sell or hold: the one of the language model, where it named one of the three.
  pub signal-decided :
      (post : String → Request B → Option (HttpResponse D)) (client : AiEngineClient B)
      (ts clock : ℤ) (user_id : String) (spec : AiSignalSpec D) (closes : List D) (position : D)
      (said : Fields D × List (String × ℕ))
      → HasLaws lib ts
      → KeepsNames lower
      → str_eq user_id "" ≡ false
      → distance clock ts ≤ client.auth.max_skew_seconds
      → Delivers post client.base_url
          (serve_signal lib lower py strip default_model complete loads coerce client.auth clock)
      → loads (dumps (payload py (asked_by spec closes position)))
        ≡ some (payload py (asked_by spec closes position))
      → All IsReadBack closes
      → IsReadBack position
      → check_ai_signal spec ≡ ok tt
      → 2 ≤ length closes
      → length closes ≤ spec.lookback_bars
      → complete
          (record {
            symbol = spec.symbol;
            position = position;
            guidance = spec.guidance;
            closes = closes;
          })
          (or_text spec.model default_model)
        ≡ ok said
      → (dec : Decision) × (signal lib py dumps post client ts user_id
            (asked_by spec closes position)
          ≡ ok dec)
        × (is_action dec.action ≡ true)
        × ((s : String)
            → find_key "action" said.0 ≡ some (text s)
            → is_action s ≡ true
            → dec.action ≡ s)
  unfolding signal signal_request
  signal-decided post client ts clock user_id spec closes position said laws names filled near del
        reads numbers number accepted low high answers =
      let asked = asked_by spec closes position in
      let q = signal_request lib py dumps client ts user_id asked in
      let (r, decided, action, named) =
        decide_action-IsAction py strip default_model complete _ spec.model said answers in
      let who = identity-sent client ts clock user_id asked laws names filled near in
      let checked = asked-checked spec closes position accepted low high in
      let served =
        serve-answered client clock q asked user_id r who refl refl
          (ap (signal_model coerce) reads ∙ payload-read asked numbers number) checked decided in
      let (dec, read, same) = read_response-answered r action in
      (
        dec,
        ap (read_response py) (del.delivered q r served) ∙ read,
        ap is_action same ∙ action,
        λ s f a. same ∙ named s f a,
      )
