-- ===== src/Strategy/Base.antt =====
-- packages/xbt-core/xbt_core/strategies/base.py: bars, order intents, the per-bot state and the
-- strategy interface. A timestamp is a number of epoch milliseconds.
use xbottrader.Prelude.{
  is_none, value_error, Result, ok, ◌>>◌, raise_if, ℕ, String, ◌≡◌, ◌↔◌, Bool, true, false, not,
  ◌&&◌, Option, none, some, List, arith,
}
use xbottrader.Decimal.{Decimal, is_pos, is_nonpos}

pub data Side : Type 0 where
  buy sell : Side

pub data OrderType : Type 0 where
  market limit : OrderType

pub record Bar (D : Type 0) : Type 0 where
  pub ts_ms : ℕ
  pub symbol : String
  pub open_price : D
  pub high : D
  pub low : D
  pub close : D
  pub volume : D

-- The text `f"{prefix}:{value}"`, or the default, the empty text.
pub data ClientTag (D : Type 0) : Type 0 where
  no_tag : ClientTag D
  number_tag : String → ℕ → ClientTag D
  price_tag : String → D → ClientTag D

pub record OrderIntent (D : Type 0) : Type 0 where
  pub symbol : String
  pub side : Side
  pub type : OrderType
  pub quantity : D
  pub limit_price : Option D
  pub client_tag : ClientTag D

-- `custom` holds the keys that one strategy uses, as a record of that strategy.
pub record StrategyState (C : Type 0) : Type 0 where
  pub last_action_ts_ms : Option ℕ
  pub custom : C

abbrev pub is_buy : Side → Bool
is_buy buy = true
is_buy sell = false

abbrev pub is_limit : OrderType → Bool
is_limit market = false
is_limit limit = true

module _ {D : Type 0} ⦃d : Decimal D⦄ where
  -- `OrderIntent.__post_init__`
  unfoldable pub post_init : OrderIntent D → Result (OrderIntent D)
  post_init intent = do
    raise_if (is_nonpos intent.quantity) (value_error "quantity must be positive")
    raise_if (is_limit intent.type && is_none intent.limit_price)
        (value_error "limit order requires limit_price")
    raise_if (not (is_limit intent.type) && not (is_none intent.limit_price))
        (value_error "market order must not set limit_price")
    ok intent

  -- the arguments of `OrderIntent(symbol=…, side=…, type="market", quantity=…, client_tag=…)`
  abbrev pub market_intent : String → Side → D → ClientTag D → OrderIntent D
  market_intent symbol side quantity tag = record {
    symbol = symbol;
    side = side;
    type = market;
    quantity = quantity;
    limit_price = none;
    client_tag = tag;
  }

  unfoldable pub market_order : String → Side → D → ClientTag D → Result (OrderIntent D)
  unfolding post_init
  market_order symbol side quantity tag = post_init (market_intent symbol side quantity tag)

  -- the arguments of `OrderIntent(…, type="limit", quantity=…, limit_price=…, client_tag=…)`
  abbrev pub limit_intent : String → Side → D → D → ClientTag D → OrderIntent D
  limit_intent symbol side quantity price tag = record {
    symbol = symbol;
    side = side;
    type = limit;
    quantity = quantity;
    limit_price = some price;
    client_tag = tag;
  }

  unfoldable pub limit_order : String → Side → D → D → ClientTag D → Result (OrderIntent D)
  unfolding post_init
  limit_order symbol side quantity price tag =
      post_init (limit_intent symbol side quantity price tag)

  pub market_order_lem :
      (symbol : String) (side : Side) (quantity : D) (tag : ClientTag D)
      → is_pos quantity ≡ true
      → market_order symbol side quantity tag ≡ ok (market_intent symbol side quantity tag)
  unfolding market_order
  market_order_lem symbol side quantity tag h = ground arith

  pub limit_order_lem :
      (symbol : String) (side : Side) (quantity price : D) (tag : ClientTag D)
      → is_pos quantity ≡ true
      → limit_order symbol side quantity price tag
        ≡ ok (limit_intent symbol side quantity price tag)
  unfolding limit_order
  limit_order_lem symbol side quantity price tag h = ground arith

  -- What `__post_init__` guarantees of every intent that exists.
  pub record IsValidIntent (o : OrderIntent D) : Type 0 where
    pub quantity_pos : is_pos o.quantity ≡ true
    pub limit_iff : is_none o.limit_price ≡ not (is_limit o.type)

  -- A constructed intent is the one asked for, and is valid; a valid one is never refused.
  pub post_init_iff : (o : OrderIntent D) → (post_init o ≡ ok o) ↔ IsValidIntent o
  unfolding post_init
  post_init_iff o = (λ h. ground arith, λ h. ground arith)

  pub post_init-eq_ok : (o o' : OrderIntent D) → post_init o ≡ ok o' → (o' ≡ o) × IsValidIntent o
  unfolding post_init
  post_init-eq_ok o o' h = ground arith

-- A strategy: `on_bar` may raise, and otherwise returns the intents and the mutated state.
abbrev pub OnBar : Type 0 → Type 0 → Type 0
OnBar D C = Bar D → StrategyState C → Result (List (OrderIntent D) × StrategyState C)
