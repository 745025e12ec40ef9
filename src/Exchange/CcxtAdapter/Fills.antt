-- ===== src/Exchange/CcxtAdapter/Fills.antt =====
-- apps/bot-engine/app/exchanges/ccxt_adapter.py: the fills that a venue reports at once.
use xbottrader.Exchange.CcxtAdapter.Placing.{submitted_placement}
use xbottrader.Exchange.CcxtAdapter.Reading.{
  id_or_new, fill_from_trade, trade_fields, fills_from_trades, sole_fill, average_fill, some_trades,
  fills_of, extract_fills,
}
use xbottrader.Exchange.CcxtAdapter.{VenueFill, truthy, as_fields}
use xbottrader.Exchange.Base.{Draws}
use xbottrader.Strategy.Value.{Value, Values, no_items, item, Fields, Coercions, find_key, to_str}
use xbottrader.Strategy.Base.{OrderIntent}
use xbottrader.Decimal.{Decimal, is_nonpos}
use xbottrader.Prelude.{
  Bool-cases, All, Returns, bind-Returns, Returns-ok, ℕ, String, ◌≡◌, refl, sym, subst, inl, inr,
  Option, none, some, List,
}

module _ {D : Type 0} ⦃d : Decimal D⦄ (py : Coercions D) (draws : Draws) where
  -- a fill of the order with the id, for the symbol of the intent
  abbrev pub IsFillOf : OrderIntent D → String → VenueFill D → Type 0
  IsFillOf intent id f = (f.symbol ≡ intent.symbol) × (f.exchange_order_id ≡ id)

  abbrev AreFillsOf : OrderIntent D → String → List (VenueFill D) × ℕ → Type 0
  AreFillsOf intent id r = All (IsFillOf intent id) r.0

  known_id :
      (raw : Fields D) (v : Value D) (n : ℕ)
      → truthy (find_key "id" raw) ≡ some v
      → (id_or_new py draws (find_key "id" raw) n).0 ≡ to_str py v
  known_id raw v n h = rw (h, id_or_new) refl

  fill_from_trade-IsFillOf :
      (trade raw : Fields D) (intent : OrderIntent D) (n : ℕ) (v : Value D)
      → truthy (find_key "id" raw) ≡ some v
      → Returns
          (λ r. IsFillOf intent (to_str py v) r.0)
          (fill_from_trade py draws trade raw intent n)
  unfolding fill_from_trade
  fill_from_trade-IsFillOf trade raw intent n v h =
      bind-Returns _ (as_fields (truthy (find_key "fee" trade))) _
        (λ fee e. (refl, known_id raw v _ h))

  fills_from_trades-AreFillsOf :
      (trades : Values D) (raw : Fields D) (intent : OrderIntent D) (n : ℕ) (v : Value D)
      → truthy (find_key "id" raw) ≡ some v
      → Returns (AreFillsOf intent (to_str py v)) (fills_from_trades py draws trades raw intent n)
  unfolding fills_from_trades
  fills_from_trades-AreFillsOf no_items raw intent n v h = tt
  fills_from_trades-AreFillsOf (item w ws) raw intent n v h =
      bind-Returns _ (trade_fields py draws w) _ (λ trade e.
        bind-Returns _ (fill_from_trade py draws trade raw intent n) _ (λ fill e'.
          bind-Returns _ (fills_from_trades py draws ws raw intent fill.1) _ (λ rest e''. (
            Returns-ok _ _ fill (fill_from_trade-IsFillOf trade raw intent n v h) e',
            Returns-ok _ _ rest (fills_from_trades-AreFillsOf ws raw intent fill.1 v h) e'',
          ))))

  average_fill-AreFillsOf :
      (raw : Fields D) (intent : OrderIntent D) (n : ℕ) (v : Value D) (quantity average : Option D)
      → truthy (find_key "id" raw) ≡ some v
      → Returns
          (AreFillsOf intent (to_str py v))
          (average_fill py draws raw intent n quantity average)
  unfolding average_fill sole_fill
  average_fill-AreFillsOf raw intent n v none average h = tt
  average_fill-AreFillsOf raw intent n v (some q) none h = tt
  average_fill-AreFillsOf raw intent n v (some q) (some a) h = elim (Bool-cases (is_nonpos q)) [
    | inl e ↦ rw e tt
    | inr e ↦ rw e (
        bind-Returns _ (as_fields (truthy (find_key "fee" raw))) _
          (λ fee e'. ((refl, known_id raw v _ h), tt)))
  ]

  fills_of-AreFillsOf :
      (trades : Option (Values D)) (raw : Fields D) (intent : OrderIntent D) (n : ℕ) (v : Value D)
      → truthy (find_key "id" raw) ≡ some v
      → Returns (AreFillsOf intent (to_str py v)) (fills_of py draws trades raw intent n)
  unfolding fills_of
  fills_of-AreFillsOf (some trades) raw intent n v h =
      fills_from_trades-AreFillsOf trades raw intent n v h
  fills_of-AreFillsOf none raw intent n v h = average_fill-AreFillsOf raw intent n v _ _ h

  -- Where the venue's answer holds an id and the adapter returns a result, the result has this id, and each of its
  -- fills is one of this order and of the symbol of the intent, from trades or from an average price.
  pub submitted_placement-fills :
      (lower : String → String) (raw : Fields D) (intent : OrderIntent D) (n : ℕ) (v : Value D)
      → truthy (find_key "id" raw) ≡ some v
      → Returns
          (λ r.
            (r.0.order.exchange_order_id ≡ to_str py v)
            × All (IsFillOf intent r.0.order.exchange_order_id) r.0.immediate_fills)
          (submitted_placement py draws lower raw intent n)
  unfolding submitted_placement extract_fills
  submitted_placement-fills lower raw intent n v h =
      let same = known_id raw v n h in
      bind-Returns _
        (extract_fills py draws raw intent (id_or_new py draws (find_key "id" raw) n).1) _
        (λ fills e.
          let all =
            Returns-ok _ _ fills
              (fills_of-AreFillsOf (some_trades py draws (find_key "trades" raw)) raw intent _ v h)
              e in
          (same, subst (λ id. All (IsFillOf intent id) fills.0) (sym same) all))
