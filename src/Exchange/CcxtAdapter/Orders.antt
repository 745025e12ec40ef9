-- ===== src/Exchange/CcxtAdapter/Orders.antt =====
-- apps/bot-engine/app/exchanges/ccxt_adapter.py: which orders reach the venue.
use xbottrader.Exchange.CcxtAdapter.Placing.{order_call, place_order}
use xbottrader.Exchange.CcxtAdapter.{Placement, OrderCall, CcxtVenue, is_alpaca}
use xbottrader.Exchange.Base.{rejected, Draws}
use xbottrader.Strategy.Value.{Fields, Coercions}
use xbottrader.Strategy.Base.{OrderIntent, is_limit}
use xbottrader.Decimal.{Decimal, ◌⩽◌, is_nonpos}
use mathlib.Core.Option.{map as option_map}
use xbottrader.Prelude.{
  Exception, Result, raised, ok, String, ◌≡◌, ◌⊎◌, Bool, true, false, [], ◌∷◌, ◌++◌,
}

module _ {D F : Type 0} ⦃d : Decimal D⦄ (py : Coercions D) (draws : Draws) (lower : String → String)
    (quantize : D → Result D) (is_integral : D → Bool) (to_float : D → F)
    (create_order : CcxtVenue F → OrderCall F → Result (Fields D)) where
  abbrev place : OrderIntent D → CcxtVenue F → Result (Placement D) × CcxtVenue F
  place = place_order py draws lower quantize is_integral to_float create_order

  abbrev call_of : OrderIntent D → D → OrderCall F
  call_of = order_call py draws lower quantize is_integral to_float create_order

  -- The order has not been sent: it is rejected without fills, or the rounding raised.
  abbrev pub IsKept : OrderIntent D → CcxtVenue F → Result (Placement D) × CcxtVenue F → Type 0
  IsKept intent s done =
      (done.1.calls ≡ s.calls)
      × (((p : Placement D) × (done.0 ≡ ok p)
            × (p.order.intent ≡ intent)
            × (p.order.status ≡ rejected)
            × (p.immediate_fills ≡ []))
          ⊎ ((e : Exception) × (quantize intent.quantity ≡ raised e) × (done.0 ≡ raised e)))

  -- The order has been sent once, with the symbol, type, side and limit price of the intent and the float of a
  -- quantity: no more than the intent, and on Alpaca more than nothing, and a limit order in whole units.
  abbrev pub IsSent : OrderIntent D → CcxtVenue F → Result (Placement D) × CcxtVenue F → Type 0
  IsSent intent s done =
      (qty : D) × (done.1.calls
        ≡ s.calls
          ++ record {
            symbol = intent.symbol;
            type = intent.type;
            side = intent.side;
            amount = to_float qty;
            price = option_map to_float intent.limit_price;
          }
            ∷ [])
      × ((qty ⩽ intent.quantity) ≡ true)
      × (is_alpaca s.venue ≡ false → qty ≡ intent.quantity)
      × (is_alpaca s.venue ≡ true → is_nonpos qty ≡ false)
      × (is_alpaca s.venue ≡ true → is_limit intent.type ≡ true → is_integral qty ≡ true)
