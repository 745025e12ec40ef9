-- ===== src/Exchange/CcxtAdapter/Reading.antt =====
-- apps/bot-engine/app/exchanges/ccxt_adapter.py: the fills in an answer of the venue.
use xbottrader.Exchange.CcxtAdapter.{
  VenueFill, side_text, truthy, as_fields, or_zero, text_or, as_decimal,
}
use xbottrader.Exchange.CcxtLive.{either_key}
use xbottrader.Exchange.Base.{Draws}
use xbottrader.Strategy.Value.{
  Value, null, list, dict, Values, no_items, item, Fields, Coercions, find_key, get_default, to_str,
}
use xbottrader.Strategy.Base.{OrderIntent}
use xbottrader.Decimal.{Decimal, is_nonpos}
use xbottrader.Prelude.{
  if◌then◌else◌, attribute_error, Result, raised, ok, ◌>>=◌, ℕ, ◌+◌, String, Option, none, some,
  List, [], ◌∷◌,
}

module _ {D : Type 0} ⦃d : Decimal D⦄ (py : Coercions D) (draws : Draws) where
  -- `str(d.get("id") or new_order_id())`, with the number of draws after it
  abbrev pub id_or_new : Option (Value D) → ℕ → String × ℕ
  id_or_new v n = elim (truthy v) [ none ↦ (draws.ids n, n + 1) | some v ↦ (to_str py v, n) ]

  -- `_fill_from_trade`
  unfoldable pub fill_from_trade :
      Fields D → Fields D → OrderIntent D → ℕ → Result (VenueFill D × ℕ)
  unfolding as_decimal
  fill_from_trade trade parent intent n = do
    fee_data ← as_fields (truthy (find_key "fee" trade))
    let fill_id = id_or_new (find_key "id" trade) n
    let order_id = id_or_new (find_key "id" parent) fill_id.1
    ok (
      record {
        exchange_fill_id = fill_id.0;
        exchange_order_id = order_id.0;
        symbol = intent.symbol;
        side = text_or py (side_text intent.side) (find_key "side" trade);
        quantity = or_zero (as_decimal py (get_default "amount" null trade));
        price = or_zero (as_decimal py (get_default "price" null trade));
        fee = or_zero (as_decimal py (get_default "cost" null fee_data));
        fee_currency = text_or py "" (find_key "currency" fee_data);
        filled_at = draws.utc order_id.1;
      },
      order_id.1,
    )

  -- a trade, whose `.get` a value of another type does not have
  abbrev pub trade_fields : Value D → Result (Fields D)
  trade_fields (dict fields) = ok fields
  trade_fields v = raised (attribute_error "no attribute 'get'")

  unfoldable pub fills_from_trades :
      Values D → Fields D → OrderIntent D → ℕ → Result (List (VenueFill D) × ℕ)
  unfolding fill_from_trade
  fills_from_trades no_items parent intent n = ok ([], n)
  fills_from_trades (item v vs) parent intent n = do
    trade ← trade_fields v
    fill ← fill_from_trade trade parent intent n
    rest ← fills_from_trades vs parent intent fill.1
    ok (fill.0 ∷ rest.0, rest.1)

  -- the fill of an average price
  unfoldable pub sole_fill : Fields D → OrderIntent D → ℕ → D → D → Result (List (VenueFill D) × ℕ)
  unfolding as_decimal
  sole_fill raw intent n quantity average = do
    fee_data ← as_fields (truthy (find_key "fee" raw))
    let fill_id = id_or_new (find_key "id" raw) n
    let order_id = id_or_new (find_key "id" raw) fill_id.1
    ok (
      record {
        exchange_fill_id = fill_id.0;
        exchange_order_id = order_id.0;
        symbol = intent.symbol;
        side = side_text intent.side;
        quantity = quantity;
        price = average;
        fee = or_zero (as_decimal py (get_default "cost" null fee_data));
        fee_currency = text_or py "" (find_key "currency" fee_data);
        filled_at = draws.utc order_id.1;
      }
          ∷ [],
      order_id.1,
    )

  -- a response without trades, by `filled` and `average`
  unfoldable pub average_fill :
      Fields D → OrderIntent D → ℕ → Option D → Option D → Result (List (VenueFill D) × ℕ)
  unfolding sole_fill
  average_fill raw intent n none average = ok ([], n)
  average_fill raw intent n (some quantity) none = ok ([], n)
  average_fill raw intent n (some quantity) (some average) =
      if is_nonpos quantity then ok ([], n) else sole_fill raw intent n quantity average

  -- the list of `trades`, where there is one and it is not empty
  abbrev pub some_trades : Option (Value D) → Option (Values D)
  some_trades (some (list (item v vs))) = some (item v vs)
  some_trades v = none

  -- the fills of the trades, or by the average price where there are none
  unfoldable pub fills_of :
      Option (Values D) → Fields D → OrderIntent D → ℕ → Result (List (VenueFill D) × ℕ)
  unfolding fills_from_trades average_fill as_decimal
  fills_of (some trades) raw intent n = fills_from_trades trades raw intent n
  fills_of none raw intent n =
      average_fill raw intent n (as_decimal py (get_default "filled" null raw))
        (as_decimal py (either_key "average" "price" raw))

  -- `_extract_fills`
  unfoldable pub extract_fills : Fields D → OrderIntent D → ℕ → Result (List (VenueFill D) × ℕ)
  unfolding fills_of
  extract_fills raw intent n = fills_of (some_trades (find_key "trades" raw)) raw intent n
