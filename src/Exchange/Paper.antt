-- ===== src/Exchange/Paper.antt =====
-- packages/xbt-core/xbt_core/exchanges/paper.py. The lock makes each method one step. `_resting` is a
-- dict in insertion order.
pub mod Book
pub mod Matching
pub mod Calls
pub mod Ids
pub mod Once
mod Tests
use xbottrader.Prelude.{
  if◌then◌else◌, ok, ℕ, ◌+◌, String, Bool, false, not, ◌&&◌, Option, none, some, List, [], ◌∷◌,
  str_eq,
}
use xbottrader.Decimal.{Decimal, ◌⊕◌, ◌⊖◌, ◌⊗◌, ◌⊘◌, ◌⩽◌, min_of, max_of, is_nonpos}
use xbottrader.Strategy.Base.{Side, buy, sell, OrderIntent, is_buy, is_limit}
use xbottrader.Exchange.Base.{
  OrderStatus, submitted, filled, rejected, FillEvent, PlacementResult, ExchangeAdapter, Draws,
}

pub record PaperConfig : Type 0 where
  pub slippage_bps : ℕ
  pub fee_bps : ℕ
  pub fee_currency : String

-- the defaults of `PaperConfig`
abbrev pub default_config : PaperConfig
default_config = record { slippage_bps = 5; fee_bps = 10; fee_currency = "USDT" }

abbrev pub Resting : Type 0 → Type 0
Resting D = List (String × OrderIntent D)

-- `drawn` counts the draws of ids.
pub record Paper (D : Type 0) : Type 0 where
  pub venue_name : String
  pub config : PaperConfig
  pub mark_fn : Option (String → Option D)
  pub marks : String → Option D
  pub resting : Resting D
  pub drawn : ℕ

module _ {D : Type 0} where
  -- `PaperExchangeAdapter(venue=…, config=…, mark_price_fn=…)`
  abbrev pub paper_adapter : String → PaperConfig → Option (String → Option D) → Paper D
  paper_adapter venue config mark_fn = record {
    venue_name = venue;
    config = config;
    mark_fn = mark_fn;
    marks = λ symbol. none;
    resting = [];
    drawn = 0;
  }

  -- `self._mark_fn(symbol)`, by default `_mark_from_table`
  abbrev pub mark_of : Paper D → String → Option D
  mark_of s symbol = elim s.mark_fn [ none ↦ s.marks symbol | some f ↦ f symbol ]

  abbrev pub set_mark : String → D → (String → Option D) → String → Option D
  set_mark symbol price marks other = if str_eq other symbol then some price else marks other

  -- `self._resting[order_id] = …`, and `self._resting.pop(order_id, None)`
  unfoldable pub rest_order : String → OrderIntent D → Resting D → Resting D
  rest_order id intent [] = (id, intent) ∷ []
  rest_order id intent ((i, o) ∷ resting) =
      if str_eq i id then (i, intent) ∷ resting else (i, o) ∷ rest_order id intent resting

  unfoldable pub pop_order : String → Resting D → Resting D
  pop_order id [] = []
  pop_order id ((i, o) ∷ resting) = if str_eq i id then resting else (i, o) ∷ pop_order id resting

  -- `for oid in filled_ids: self._resting.pop(oid, None)`
  unfoldable pub pop_orders : List String → Resting D → Resting D
  unfolding pop_order
  pop_orders [] resting = resting
  pop_orders (id ∷ ids) resting = pop_orders ids (pop_order id resting)

module _ {D : Type 0} ⦃d : Decimal D⦄ where
  -- `_apply_slippage`
  unfoldable pub apply_slippage : PaperConfig → D → Side → D
  apply_slippage config mark side =
      let adj = mark ⊗ d.of_ℕ config.slippage_bps ⊘ d.of_ℕ 10000 in
      if is_buy side then mark ⊕ adj else mark ⊖ adj

  -- the test `crossed` of `_match_resting`
  abbrev pub crossed : Side → D → D → Bool
  crossed buy mark limit_price = mark ⩽ limit_price
  crossed sell mark limit_price = limit_price ⩽ mark

  -- whether an update of the symbol to the mark fills an order
  abbrev pub is_triggered : String → D → OrderIntent D → Bool
  is_triggered symbol mark intent = str_eq intent.symbol symbol && elim intent.limit_price [
    | none ↦ false
    | some at_limit ↦ crossed intent.side mark at_limit
  ]

  -- the price before slippage of a limit fill
  abbrev pub limit_base : Side → D → D → D
  limit_base buy mark limit_price = min_of mark limit_price
  limit_base sell mark limit_price = max_of mark limit_price

  abbrev pub limit_fill_price : PaperConfig → D → OrderIntent D → D
  limit_fill_price config mark intent = elim intent.limit_price [
    | none ↦ mark
    | some at_limit ↦ apply_slippage config (limit_base intent.side mark at_limit) intent.side
  ]

module _ {D : Type 0} ⦃d : Decimal D⦄ (draws : Draws) where
  -- `_build_fill`, at the given number of draws
  unfoldable pub build_fill : PaperConfig → ℕ → String → OrderIntent D → D → D → FillEvent D
  build_fill config drawn order_id intent price qty =
      let notional = qty ⊗ price in
      record {
        exchange_fill_id = draws.ids drawn;
        exchange_order_id = order_id;
        symbol = intent.symbol;
        side = intent.side;
        quantity = qty;
        price = price;
        fee = notional ⊗ d.of_ℕ config.fee_bps ⊘ d.of_ℕ 10000;
        fee_currency = config.fee_currency;
        filled_at = draws.utc drawn;
      }

  -- the first loop of `_match_resting`: the fills, their order ids, and the number of draws after
  unfoldable pub match_loop :
      PaperConfig → String → D → ℕ → Resting D → List (FillEvent D) × List String × ℕ
  unfolding build_fill
  match_loop config symbol mark drawn [] = ([], [], drawn)
  match_loop config symbol mark drawn ((id, intent) ∷ resting) =
      let skipped = match_loop config symbol mark drawn resting in
      let rest = match_loop config symbol mark (drawn + 1) resting in
      let fill =
        build_fill config drawn id intent (limit_fill_price config mark intent) intent.quantity in
      if is_triggered symbol mark intent then (fill ∷ rest.0, id ∷ rest.1, rest.2) else skipped

  -- `_match_resting`
  unfoldable pub match_resting : String → D → Paper D → List (FillEvent D) × Paper D
  unfolding match_loop pop_orders
  match_resting symbol mark s =
      let (fills, filled_ids, drawn) = match_loop s.config symbol mark s.drawn s.resting in
      (fills, record s { resting = pop_orders filled_ids s.resting; drawn = drawn })

  unfoldable pub update_mark : String → D → Paper D → List (FillEvent D) × Paper D
  unfolding match_resting
  update_mark symbol price s =
      match_resting symbol price (record s { marks = set_mark symbol price s.marks })

  abbrev placed : OrderIntent D → String → OrderStatus → List (FillEvent D) → ℕ → PlacementResult D
  placed intent id status fills drawn = record {
    order = record {
      exchange_order_id = id;
      intent = intent;
      submitted_at = draws.utc drawn;
      status = status;
    };
    immediate_fills = fills;
  }

  -- the branch of a market order; the order id is draw number `drawn`
  unfoldable pub place_market : OrderIntent D → Option D → Paper D → PlacementResult D × Paper D
  unfolding build_fill apply_slippage
  place_market intent none s =
      (placed intent (draws.ids s.drawn) rejected [] s.drawn, record s { drawn = s.drawn + 1 })
  place_market intent (some mark) s =
      let id = draws.ids s.drawn in
      let fill_price = apply_slippage s.config mark intent.side in
      let fill = build_fill s.config (s.drawn + 1) id intent fill_price intent.quantity in
      if is_nonpos mark
      then (placed intent id rejected [] s.drawn, record s { drawn = s.drawn + 1 })
      else (placed intent id filled (fill ∷ []) s.drawn, record s { drawn = s.drawn + 2 })

  unfoldable pub place_order : OrderIntent D → Paper D → PlacementResult D × Paper D
  unfolding place_market rest_order
  place_order intent s =
      let id = draws.ids s.drawn in
      if not (is_limit intent.type) then place_market intent (mark_of s intent.symbol) s else (
        placed intent id submitted [] s.drawn,
        record s { resting = rest_order id intent s.resting; drawn = s.drawn + 1 },
      )

  unfoldable pub cancel_order : String → Paper D → Paper D
  unfolding pop_order
  cancel_order id s = record s { resting = pop_order id s.resting }

  unfoldable pub close : Paper D → Paper D
  close s = record s { resting = []; marks = λ symbol. none }

  -- The paper exchange as an adapter: no call of it raises.
  abbrev pub paper_exchange : ExchangeAdapter D (Paper D)
  paper_exchange = record {
    venue = λ s. s.venue_name;
    place_order = λ intent s. (ok (place_order intent s).0, (place_order intent s).1);
    cancel_order = λ id s. (ok tt, cancel_order id s);
    close = λ s. (ok tt, close s);
  }
