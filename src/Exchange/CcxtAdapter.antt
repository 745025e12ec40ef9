-- ===== src/Exchange/CcxtAdapter.antt =====
-- apps/bot-engine/app/exchanges/ccxt_adapter.py: orders on a venue through a ccxt client. The client is a
-- parameter, and so are the rounding of `Decimal.quantize` and the conversion to floats, of a type `F`;
-- `draws` are the ids and times, counted by the draws of ids.
pub mod Reading
pub mod Placing
pub mod Orders
pub mod Fills
mod Tests
use xbottrader.Exchange.CcxtLive.{is_truthy}
use xbottrader.Exchange.Base.{
  OrderStatus, submitted, filled, partially_filled, rejected, SubmittedOrder,
}
use xbottrader.Strategy.Value.{
  Value, null, text, number, decimal, list, dict, Fields, end, Coercions, to_str, to_decimal,
}
use xbottrader.Strategy.Base.{Side, buy, sell, OrderType}
use xbottrader.Decimal.{Decimal, zero_of}
use xbottrader.Prelude.{
  if◌then◌else◌, attribute_error, Result, raised, ok, ℕ, String, Bool, ◌||◌, Option, none, some,
  List, str_eq,
}

-- a fill as the venue reports it, with the text of its side
pub record VenueFill (D : Type 0) : Type 0 where
  pub exchange_fill_id : String
  pub exchange_order_id : String
  pub symbol : String
  pub side : String
  pub quantity : D
  pub price : D
  pub fee : D
  pub fee_currency : String
  pub filled_at : ℕ

pub record Placement (D : Type 0) : Type 0 where
  pub order : SubmittedOrder D
  pub immediate_fills : List (VenueFill D)

-- a call of `create_order`
pub record OrderCall (F : Type 0) : Type 0 where
  pub symbol : String
  pub type : OrderType
  pub side : Side
  pub amount : F
  pub price : Option F

-- the adapter, with the calls that it has made
pub record CcxtVenue (F : Type 0) : Type 0 where
  pub venue : String
  pub calls : List (OrderCall F)
  pub drawn : ℕ

-- `_is_alpaca`
abbrev pub is_alpaca : String → Bool
is_alpaca venue = str_eq venue "alpaca" || str_eq venue "alpaca-paper"

-- `_STATUS_MAP.get(…, "submitted")`
abbrev pub status_of : String → OrderStatus
status_of s =
    if str_eq s "closed" || str_eq s "filled"
    then filled
    else if str_eq s "partial"
    then partially_filled
    else if str_eq s "canceled" || str_eq s "cancelled" || str_eq s "rejected" || str_eq s "expired"
    then rejected
    else submitted

abbrev pub side_text : Side → String
side_text buy = "buy"
side_text sell = "sell"

module _ {D : Type 0} ⦃d : Decimal D⦄ where
  -- a value that is there and is true
  abbrev pub truthy : Option (Value D) → Option (Value D)
  truthy none = none
  truthy (some v) = if is_truthy v then some v else none

  -- `d.get("fee") or {}`, where `.get` is asked of it
  abbrev pub as_fields : Option (Value D) → Result (Fields D)
  as_fields none = ok end
  as_fields (some (dict fields)) = ok fields
  as_fields (some v) = raised (attribute_error "no attribute 'get'")

  -- `x or Decimal("0")`
  abbrev pub or_zero : Option D → D
  or_zero none = zero_of D
  or_zero (some x) = if d.eq x (zero_of D) then zero_of D else x

  -- `str(x or default)`
  abbrev pub text_or : Coercions D → String → Option (Value D) → String
  text_or py default v = elim (truthy v) [ none ↦ default | some v ↦ to_str py v ]

  -- a value that is no None as a decimal, if it reads as one
  abbrev pub read_decimal : Result D → Option D
  read_decimal (raised e) = none
  read_decimal (ok x) = some x

  -- `_as_decimal`
  unfoldable pub as_decimal : Coercions D → Value D → Option D
  as_decimal py null = none
  as_decimal py (text s) = read_decimal (to_decimal py (text s))
  as_decimal py (number n) = read_decimal (to_decimal py (number n))
  as_decimal py (decimal x) = read_decimal (to_decimal py (decimal x))
  as_decimal py (list vs) = read_decimal (to_decimal py (list vs))
  as_decimal py (dict fields) = read_decimal (to_decimal py (dict fields))
