-- ===== src/Exchange/CcxtAdapter/Placing.antt =====
-- apps/bot-engine/app/exchanges/ccxt_adapter.py: `place_order`, with the calls that it makes.
use xbottrader.Exchange.CcxtAdapter.Reading.{id_or_new, extract_fills}
use xbottrader.Exchange.CcxtAdapter.{Placement, OrderCall, CcxtVenue, is_alpaca, status_of}
use xbottrader.Exchange.Base.{rejected, Draws}
use xbottrader.Strategy.Value.{text, Fields, Coercions, find_key, get_default, to_str}
use xbottrader.Strategy.Base.{OrderIntent, is_limit}
use xbottrader.Decimal.{Decimal, is_nonpos}
use xbottrader.Prelude.{
  if◌then◌else◌, Result, raised, ok, ◌>>=◌, ℕ, ◌+◌, String, Bool, not, ◌&&◌, [], ◌∷◌, ◌++◌,
}
use mathlib.Core.Option.{map as option_map}

module _ {D : Type 0} ⦃d : Decimal D⦄ (py : Coercions D) (draws : Draws) where
  -- `_rejected`
  abbrev pub rejected_placement : OrderIntent D → ℕ → Placement D
  rejected_placement intent n = record {
    order = record {
      exchange_order_id = draws.ids n;
      intent = intent;
      submitted_at = draws.utc (n + 1);
      status = rejected;
    };
    immediate_fills = [];
  }

  -- what follows `create_order`
  unfoldable pub submitted_placement :
      (String → String) → Fields D → OrderIntent D → ℕ → Result (Placement D × ℕ)
  unfolding extract_fills
  submitted_placement lower raw intent n =
      let order_id = id_or_new py draws (find_key "id" raw) n in
      let status = status_of (lower (to_str py (get_default "status" (text "") raw))) in
      do
        fills ← extract_fills py draws raw intent order_id.1
        ok (
          record {
            order = record {
              exchange_order_id = order_id.0;
              intent = intent;
              submitted_at = draws.utc order_id.1;
              status = status;
            };
            immediate_fills = fills.0;
          },
          fills.1,
        )

  module _ {F : Type 0} (lower : String → String) (quantize : D → Result D) (is_integral : D → Bool)
      (to_float : D → F) (create_order : CcxtVenue F → OrderCall F → Result (Fields D)) where
    abbrev pub drawn_after : ℕ → Result (Placement D × ℕ) → Result (Placement D) × ℕ
    drawn_after n (raised e) = (raised e, n)
    drawn_after n (ok p) = (ok p.0, p.1)

    -- the answer of the venue to the call, in the adapter after it
    abbrev pub answered :
        Result (Fields D) → OrderIntent D → CcxtVenue F → Result (Placement D) × CcxtVenue F
    answered (raised e) intent s = (raised e, s)
    answered (ok raw) intent s =
        let done = drawn_after s.drawn (submitted_placement lower raw intent s.drawn) in
        (done.0, record s { drawn = done.1 })

    abbrev pub order_call : OrderIntent D → D → OrderCall F
    order_call intent qty = record {
      symbol = intent.symbol;
      type = intent.type;
      side = intent.side;
      amount = to_float qty;
      price = option_map to_float intent.limit_price;
    }

    -- the order goes to the venue
    unfoldable pub send_order : OrderIntent D → D → CcxtVenue F → Result (Placement D) × CcxtVenue F
    unfolding submitted_placement
    send_order intent qty s =
        let call = order_call intent qty in
        answered (create_order s call) intent (record s { calls = s.calls ++ call ∷ [] })

    -- the order does not
    abbrev pub reject_order : OrderIntent D → CcxtVenue F → Result (Placement D) × CcxtVenue F
    reject_order intent s =
        (ok (rejected_placement intent s.drawn), record s { drawn = s.drawn + 1 })

    -- the checks of a quantity that has been rounded for Alpaca
    abbrev pub alpaca_order :
        OrderIntent D → Result D → CcxtVenue F → Result (Placement D) × CcxtVenue F
    alpaca_order intent (raised e) s = (raised e, s)
    alpaca_order intent (ok qty) s =
        if is_nonpos qty
        then reject_order intent s
        else if is_limit intent.type && not (is_integral qty)
        then reject_order intent s
        else send_order intent qty s

    -- `place_order`
    unfoldable pub place_order : OrderIntent D → CcxtVenue F → Result (Placement D) × CcxtVenue F
    unfolding send_order
    place_order intent s =
        if is_alpaca s.venue
        then alpaca_order intent (quantize intent.quantity) s
        else send_order intent intent.quantity s
