-- ===== src/Exchange/CcxtAdapter/Tests.antt =====
-- Orders on whole numbers, where a quantity is in units and Alpaca rounds down to tens.
use xbottrader.Exchange.CcxtAdapter.Reading.{
  fill_from_trade, fills_from_trades, fills_of, extract_fills,
}
use xbottrader.Exchange.CcxtAdapter.Placing.{submitted_placement, send_order, place_order}
use xbottrader.Exchange.CcxtAdapter.{OrderCall, CcxtVenue}
use xbottrader.Exchange.CcxtAdapter.Fills.{IsFillOf, submitted_placement-fills}
use xbottrader.Decimal.Whole.{ℤ, pos, whole}
use xbottrader.Config.Fixtures.{py}
use xbottrader.Exchange.Base.{Draws}
use xbottrader.Strategy.Value.{text, number, list, dict, no_items, item, Fields, end, field}
use xbottrader.Strategy.Base.{buy, limit, no_tag, OrderIntent}
use xbottrader.Prelude.{
  length, All, Result, ok, Returns, String, ◌≡◌, refl, Bool, true, false, some, [], ◌∷◌,
}

abbrev draws : Draws
draws = record { ids = λ n. "uuid"; utc = λ n. n }

-- rounding that is already exact
abbrev exact : ℤ → Result ℤ
exact x = ok x

abbrev whole_units : ℤ → Bool
whole_units x = false

abbrev reply : CcxtVenue ℤ → OrderCall ℤ → Result (Fields ℤ)
reply s call = ok (
    field "id" (text "x-1") (
      field "status" (text "closed")
        (field "filled" (number 3) (field "average" (number 100) end))))

abbrev at_limit : OrderIntent ℤ
at_limit = record {
  symbol = "AAPL";
  side = buy;
  type = limit;
  quantity = pos 3;
  limit_price = some (pos 100);
  client_tag = no_tag;
}

abbrev venue_at : String → CcxtVenue ℤ
venue_at name = record { venue = name; calls = []; drawn = 0 }

-- every quantity is of whole units
abbrev any_units : ℤ → Bool
any_units x = true

-- where its units are whole, the order is sent
sent_here :
    (place_order py draws
      (λ s. s)
      exact
      any_units
      (λ x. x)
      reply
      at_limit
      (venue_at "alpaca")).1.calls
    ≡ record { symbol = "AAPL"; type = limit; side = buy; amount = pos 3; price = some (pos 100) }
      ∷ []
unfolding place_order send_order
sent_here = refl

-- a limit order of a fraction is rejected on Alpaca and sent elsewhere
rejected_here :
    (place_order py draws
      (λ s. s)
      exact
      whole_units
      (λ x. x)
      reply
      at_limit
      (venue_at "alpaca")).1.calls
    ≡ []
unfolding place_order
rejected_here = refl

sent_there :
    length
      (place_order py draws
        (λ s. s)
        exact
        whole_units
        (λ x. x)
        reply
        at_limit
        (venue_at "kraken")).1.calls
    ≡ 1
unfolding place_order send_order
sent_there = refl

abbrev answer_fields : Fields ℤ
answer_fields = field "id" (text "x-1") (
    field "status" (text "closed") (
      field "trades"
        (list (
          item (dict (field "amount" (number 2) (field "price" (number 99) end)))
            (item (dict (field "amount" (number 1) (field "side" (text "buy") end))) no_items)))
        end))

submitted_placement-fills_example :
    Returns
      (λ r.
        (r.0.order.exchange_order_id ≡ "x-1")
        × All (IsFillOf py draws at_limit r.0.order.exchange_order_id) r.0.immediate_fills)
      (submitted_placement py draws (λ s. s) answer_fields at_limit 0)
submitted_placement-fills_example =
    submitted_placement-fills py draws (λ s. s) answer_fields at_limit 0 (text "x-1") refl

two_fills :
    Returns
      (λ r. length r.0.immediate_fills ≡ 2)
      (submitted_placement py draws (λ s. s) answer_fields at_limit 0)
unfolding submitted_placement extract_fills fills_of fills_from_trades fill_from_trade
two_fills = refl
