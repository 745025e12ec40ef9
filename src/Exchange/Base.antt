-- ===== src/Exchange/Base.antt =====
-- packages/xbt-core/xbt_core/exchanges/base.py: orders, fills, and the adapter interface.
use xbottrader.Prelude.{Result, ℕ, String, ◌≡◌, List}
use xbottrader.Strategy.Base.{Side, OrderIntent}

-- the texts that `status` takes
pub data OrderStatus : Type 0 where
  submitted filled partially_filled rejected : OrderStatus

pub record SubmittedOrder (D : Type 0) : Type 0 where
  pub exchange_order_id : String
  pub intent : OrderIntent D
  pub submitted_at : ℕ
  pub status : OrderStatus

pub record FillEvent (D : Type 0) : Type 0 where
  pub exchange_fill_id : String
  pub exchange_order_id : String
  pub symbol : String
  pub side : Side
  pub quantity : D
  pub price : D
  pub fee : D
  pub fee_currency : String
  pub filled_at : ℕ

pub record PlacementResult (D : Type 0) : Type 0 where
  pub order : SubmittedOrder D
  pub immediate_fills : List (FillEvent D)

-- The protocol `ExchangeAdapter`, over the state `S` of an adapter. A call may raise, and what it has
-- changed before stays changed.
pub record ExchangeAdapter (D S : Type 0) : Type 0 where
  pub venue : S → String
  pub place_order : OrderIntent D → S → Result (PlacementResult D) × S
  pub cancel_order : String → S → Result (Unit {0}) × S
  pub close : S → Result (Unit {0}) × S

-- What the process draws from outside: `new_order_id()`, a random UUID, and `utcnow()`, each by the
-- number of draws before it.
pub record Draws : Type 0 where
  pub ids : ℕ → String
  pub utc : ℕ → ℕ

-- No UUID is drawn twice.
pub record IsFresh (draws : Draws) : Type 0 where
  pub ids_injective : (i j : ℕ) → draws.ids i ≡ draws.ids j → i ≡ j
