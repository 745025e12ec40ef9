-- ===== src/Runtime/Router.antt =====
-- apps/bot-engine/app/runtime/router.py: `ExchangeOrderRouter`, which sends orders to an exchange
-- adapter, persists them, and then publishes events. The database is a parameter: whether the n-th
-- transaction raises, at its commit, and then leaves no row. The rows of the audit log, which stand
-- in the same transactions, are left out, and publishing does not raise.
pub mod Trail
mod Tests
use xbottrader.Prelude.{
  if◌then◌else◌, length, is_empty, Exception, Result, raised, ok, ℕ, ◌+◌, String, Bool, true, false,
  ◌&&◌, Option, none, some, List, [], ◌∷◌, ◌++◌, str_eq,
}
use xbottrader.Strategy.Base.{OrderIntent}
use xbottrader.Exchange.Base.{
  OrderStatus, submitted, SubmittedOrder, FillEvent, PlacementResult, ExchangeAdapter,
}

-- What a transaction writes: rows of orders, fills and changed states. The audit rows stand beside.
pub data Row (D : Type 0) : Type 0 where
  order_row : SubmittedOrder D → Row D
  fill_row : FillEvent D → Row D
  cancelled_row : String → Row D

pub data RouterEvent (D : Type 0) : Type 0 where
  order_submitted : SubmittedOrder D → RouterEvent D
  fill_seen : FillEvent D → RouterEvent D
  order_cancelled : String → String → RouterEvent D

-- What the outside sees of the router, in order.
pub data Effect (D : Type 0) : Type 0 where
  committed : List (Row D) → Effect D
  published : RouterEvent D → Effect D

pub record Router (D S : Type 0) : Type 0 where
  pub adapter : S
  pub open_orders : List (String × String)
  pub transactions : ℕ
  pub log : List (Effect D)

abbrev pub is_submitted : OrderStatus → Bool
is_submitted submitted = true
is_submitted _ = false

-- `_open_orders[id] = symbol`, and `_open_orders.pop(id, None)`
abbrev pub put_open : String → String → List (String × String) → List (String × String)
put_open id symbol [] = (id, symbol) ∷ []
put_open id symbol ((i, s) ∷ orders) =
    let rest = put_open id symbol orders in
    if str_eq i id then (i, symbol) ∷ orders else (i, s) ∷ rest

abbrev pub pop_open : String → List (String × String) → List (String × String)
pop_open id [] = []
pop_open id ((i, s) ∷ orders) =
    let rest = pop_open id orders in if str_eq i id then orders else (i, s) ∷ rest

module _ {D : Type 0} where
  abbrev pub fill_rows : List (FillEvent D) → List (Row D)
  fill_rows [] = []
  fill_rows (f ∷ fills) = fill_row f ∷ fill_rows fills

  abbrev pub fill_events : List (FillEvent D) → List (Effect D)
  fill_events [] = []
  fill_events (f ∷ fills) = published (fill_seen f) ∷ fill_events fills

  abbrev pub cancelled_rows : List (String × String) → List (Row D)
  cancelled_rows [] = []
  cancelled_rows ((i, s) ∷ orders) = cancelled_row i ∷ cancelled_rows orders

  abbrev pub cancel_events : List (String × String) → List (Effect D)
  cancel_events [] = []
  cancel_events ((i, s) ∷ orders) = published (order_cancelled i s) ∷ cancel_events orders

  abbrev pub pop_filled : List (FillEvent D) → List (String × String) → List (String × String)
  pop_filled [] orders = orders
  pop_filled (f ∷ fills) orders = pop_filled fills (pop_open f.exchange_order_id orders)

module _ {D S : Type 0} (exchange : ExchangeAdapter D S) (database : ℕ → Option Exception) where
  -- The end of a transaction with the given rows, and what is published after it.
  unfoldable pub commit :
      {A : Type 0}
      → Option Exception
      → List (Row D)
      → List (Effect D)
      → A
      → Router D S
      → Result A × Router D S
  commit (some exception) rows events answer r =
      (raised exception, record r { transactions = r.transactions + 1 })
  commit none rows events answer r = (
    ok answer,
    record r { transactions = r.transactions + 1; log = r.log ++ committed rows ∷ events },
  )

  unfoldable pub transact :
      {A : Type 0} → List (Row D) → List (Effect D) → A → Router D S → Result A × Router D S
  unfolding commit
  transact rows events answer r = commit (database r.transactions) rows events answer r

  -- a submitted order without a fill is open once it has been persisted
  unfoldable pub remember :
      OrderIntent D
      → SubmittedOrder D
      → Result (List (FillEvent D)) × Router D S
      → Result (List (FillEvent D)) × Router D S
  remember intent order (raised exception, r) = (raised exception, r)
  remember intent order (ok fills, r) =
      let opened = put_open order.exchange_order_id intent.symbol r.open_orders in
      let rests = is_submitted order.status && is_empty fills in
      (ok fills, record r { open_orders = if rests then opened else r.open_orders })

  -- what follows the venue's answer: the order and its fills are persisted, then published
  unfoldable pub persist_placement :
      OrderIntent D → PlacementResult D → Router D S → Result (List (FillEvent D)) × Router D S
  unfolding transact remember
  persist_placement intent result r =
      let fills = result.immediate_fills in
      remember intent result.order (
        transact (order_row result.order ∷ fill_rows fills)
          (published (order_submitted result.order) ∷ fill_events fills) fills r)

  -- what `place_order` of the venue returned
  unfoldable pub after_placement :
      OrderIntent D
      → Result (PlacementResult D)
      → Router D S
      → Result (List (FillEvent D)) × Router D S
  unfolding persist_placement
  after_placement intent (raised exception) r = (raised exception, r)
  after_placement intent (ok result) r = persist_placement intent result r

  unfoldable pub submit : OrderIntent D → Router D S → Result (List (FillEvent D)) × Router D S
  unfolding after_placement
  submit intent r =
      let (answer, s) = exchange.place_order intent r.adapter in
      after_placement intent answer (record r { adapter = s })

  -- the loop of `cancel_open` at the venue: the first exception ends it
  unfoldable pub cancel_all : List (String × String) → S → Result (Unit {0}) × S
  cancel_all [] s = (ok tt, s)
  cancel_all ((i, symbol) ∷ orders) s =
      let (answer, t) = exchange.cancel_order i s in
      let rest = cancel_all orders t in
      elim answer [ raised exception ↦ (raised exception, t) | ok done ↦ rest ]

  -- the end of `cancel_open`, once the venue has answered
  unfoldable pub after_cancel :
      List (String × String) → Result (Unit {0}) → Router D S → Result ℕ × Router D S
  unfolding transact
  after_cancel orders (raised exception) r =
      (raised exception, record r { transactions = r.transactions + 1 })
  after_cancel orders (ok done) r =
      transact (cancelled_rows orders) (cancel_events orders) (length orders) r

  unfoldable pub cancel_open : Router D S → Result ℕ × Router D S
  unfolding cancel_all after_cancel
  cancel_open r =
      let orders = r.open_orders in
      let (answer, s) = cancel_all orders r.adapter in
      if is_empty orders
      then (ok 0, r)
      else after_cancel orders answer (record r { adapter = s; open_orders = [] })

  unfoldable pub deliver_fills : List (FillEvent D) → Router D S → Result (Unit {0}) × Router D S
  unfolding transact
  deliver_fills fills r =
      transact (fill_rows fills) (fill_events fills) tt
        (record r { open_orders = pop_filled fills r.open_orders })
