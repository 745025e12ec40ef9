-- ===== src/Exchange/CcxtLive.antt =====
-- apps/bot-engine/app/exchanges/ccxt_live.py: the bars that a polled market gives, and the credentials of a
-- venue. What a market's client returns is an input; `X` is the type of an entry of a candle, and the
-- readings `int(x)` and `Decimal(str(x))` of it are parameters, as is `json.loads`.
pub mod Increasing
mod Tests
use xbottrader.Strategy.Value.{
  Value, null, text, number, decimal, list, dict, no_items, item, Fields, end, field, Coercions,
  get_default, to_str,
}
use xbottrader.Strategy.Base.{Bar}
use xbottrader.Decimal.{Decimal}
use xbottrader.Prelude.{
  ltb, ◌==◌, if◌then◌else◌, Exception, value_error, index_error, Result, raised, ok, raise_if,
  ◌>>=◌, ◌>>◌, ℕ, zero, suc, String, Bool, true, false, not, ◌||◌, Option, none, some, List, [],
  ◌∷◌, str_eq,
}

-- a bar that is yielded, with the call of the mark sink before it
pub record Fed (D : Type 0) : Type 0 where
  pub marked : Option (String × D)
  pub bar : Bar D

-- what the generator has yielded, and the exception that has ended it
pub record Feed (D : Type 0) : Type 0 where
  pub yielded : List (Fed D)
  pub failure : Option Exception

-- `candles[-2] if len(candles) >= 2 else candles[-1]`
abbrev pub latest_closed {ℓ} : {A : Type ℓ} → List A → Option A
latest_closed [] = none
latest_closed (c ∷ []) = some c
latest_closed (c ∷ c' ∷ []) = some c
latest_closed (c ∷ c' ∷ c'' ∷ cs) = latest_closed (c' ∷ c'' ∷ cs)

-- `candle[n]`
abbrev pub entry {ℓ} : {A : Type ℓ} → ℕ → List A → Result A
entry n [] = raised (index_error "list index out of range")
entry zero (x ∷ xs) = ok x
entry (suc n) (x ∷ xs) = entry n xs

-- `last_ts is None or ts > last_ts`
abbrev pub is_new : Option ℕ → ℕ → Bool
is_new none ts = true
is_new (some last) ts = ltb last ts

module _ {D X : Type 0} (read_int : X → Result ℕ) (read_decimal : X → Result D)
    (symbol : String) where
  -- `_to_bar`, which takes the entries before it reads them
  unfoldable pub to_bar : List X → Result (Bar D)
  to_bar candle = do
    t ← entry 0 candle
    o ← entry 1 candle
    h ← entry 2 candle
    l ← entry 3 candle
    c ← entry 4 candle
    v ← entry 5 candle
    ts_ms ← read_int t
    open_price ← read_decimal o
    high ← read_decimal h
    low ← read_decimal l
    close ← read_decimal c
    volume ← read_decimal v
    ok (record {
      ts_ms = ts_ms;
      symbol = symbol;
      open_price = open_price;
      high = high;
      low = low;
      close = close;
      volume = volume;
    })

  -- the candle of a poll as a new bar, if it is one
  unfoldable pub new_bar : Option ℕ → Option (List X) → Result (Option (Bar D))
  unfolding to_bar
  new_bar last none = ok none
  new_bar last (some candle) = do
    t ← entry 0 candle
    ts ← read_int t
    if is_new last ts then (to_bar candle >>= λ bar. ok (some bar)) else ok none

  module _ (has_sink : Bool) where
    abbrev pub fed : Bar D → Fed D
    fed bar = record { marked = if has_sink then some (symbol, bar.close) else none; bar = bar }

    -- a turn of `_gen`, before the rest of the polls
    abbrev pub polled : Option ℕ → Result (Option (Bar D)) → (Option ℕ → Feed D) → Feed D
    polled last (raised e) rest = record { yielded = []; failure = some e }
    polled last (ok none) rest = rest last
    polled last (ok (some bar)) rest = record {
      yielded = fed bar ∷ (rest (some bar.ts_ms)).yielded;
      failure = (rest (some bar.ts_ms)).failure;
    }

    -- `_gen`, over what `fetch_ohlcv` returns or raises, poll by poll
    unfoldable pub gen : List (Result (List (List X))) → Option ℕ → Feed D
    unfolding new_bar
    gen [] last = record { yielded = []; failure = none }
    gen (candles ∷ polls) last =
        polled last (candles >>= λ cs. new_bar last (latest_closed cs)) (gen polls)

pub record ExchangeCredentials : Type 0 where
  pub api_key : String
  pub secret : String
  pub password : Option String

module _ {D : Type 0} ⦃d : Decimal D⦄ where
  -- `bool(x)`
  abbrev pub is_truthy : Value D → Bool
  is_truthy null = false
  is_truthy (text s) = not (str_eq s "")
  is_truthy (number n) = not (n == 0)
  is_truthy (decimal x) = not (d.eq x (d.of_ℕ 0))
  is_truthy (list no_items) = false
  is_truthy (list (item v vs)) = true
  is_truthy (dict end) = false
  is_truthy (dict (field k v rest)) = true

  -- `d.get(first) or d.get(second)`
  abbrev pub either_key : String → String → Fields D → Value D
  either_key first second fields =
      let v = get_default first null fields in
      if is_truthy v then v else get_default second null fields

  module _ (py : Coercions D) (loads : String → Result (Fields D)) where
    -- `ExchangeCredentials.from_plaintext`
    unfoldable pub from_plaintext : String → Result ExchangeCredentials
    from_plaintext plaintext = do
      fields ← loads plaintext
      let api_key = either_key "apiKey" "api_key" fields
      let secret = get_default "secret" null fields
      raise_if (not (is_truthy api_key) || not (is_truthy secret))
          (value_error "credentials must contain apiKey and secret")
      let password = either_key "password" "passphrase" fields
      ok (record {
        api_key = to_str py api_key;
        secret = to_str py secret;
        password = if is_truthy password then some (to_str py password) else none;
      })
