-- ===== src/Runtime/Router/Trail.antt =====
-- The paper trail that the head of runtime/router.py promises: persistence happens before publishing.
use xbottrader.Prelude.{
  Bool-cases, length, is_empty, Exception, Result, raised, ok, ℕ, String, inl, inr, Option, none,
  some, List, [], ◌∷◌, ◌++◌,
}
use xbottrader.Strategy.Base.{OrderIntent}
use xbottrader.Exchange.Base.{SubmittedOrder, FillEvent, PlacementResult, ExchangeAdapter}
use xbottrader.Runtime.Router.{
  Row, order_row, fill_row, cancelled_row, RouterEvent, order_submitted, fill_seen, order_cancelled,
  Effect, committed, published, Router, fill_rows, fill_events, cancelled_rows, cancel_events,
  pop_filled, commit, transact, remember, persist_placement, after_placement, submit, cancel_all,
  after_cancel, cancel_open, deliver_fills,
}

-- The calls of a router.
pub data RouterCall (D : Type 0) : Type 0 where
  to_submit : OrderIntent D → RouterCall D
  to_cancel : RouterCall D
  to_deliver : List (FillEvent D) → RouterCall D

module _ {D : Type 0} where
  pub data Has (row : Row D) : List (Row D) → Type 0 where
    here : {rows : List (Row D)} → Has row (row ∷ rows)
    there : {other : Row D} {rows : List (Row D)} → Has row rows → Has row (other ∷ rows)

  -- The row that an event tells of.
  abbrev pub row_of : RouterEvent D → Row D
  row_of (order_submitted order) = order_row order
  row_of (fill_seen fill) = fill_row fill
  row_of (order_cancelled id symbol) = cancelled_row id

  -- Every event is published after its row has been committed; `rows` are committed before.
  abbrev pub IsTrailed : List (Row D) → List (Effect D) → Type 0
  IsTrailed rows [] = Unit
  IsTrailed rows (committed more ∷ log) = IsTrailed (more ++ rows) log
  IsTrailed rows (published event ∷ log) = Has (row_of event) rows × IsTrailed rows log

  abbrev rows_after : List (Row D) → List (Effect D) → List (Row D)
  rows_after rows [] = rows
  rows_after rows (committed more ∷ log) = rows_after (more ++ rows) log
  rows_after rows (published event ∷ log) = rows_after rows log

  IsTrailed-append :
      (rows : List (Row D)) (xs ys : List (Effect D))
      → IsTrailed rows xs
      → IsTrailed (rows_after rows xs) ys
      → IsTrailed rows (xs ++ ys)
  IsTrailed-append rows [] ys h k = k
  IsTrailed-append rows (committed more ∷ xs) ys h k = IsTrailed-append (more ++ rows) xs ys h k
  IsTrailed-append rows (published event ∷ xs) ys h k = (h.0, IsTrailed-append rows xs ys h.1 k)

  Has-append : (row : Row D) (xs ys : List (Row D)) → Has row xs → Has row (xs ++ ys)
  Has-append row [] ys h = elim h [ ]
  Has-append row (x ∷ xs) ys here = here
  Has-append row (x ∷ xs) ys (there h) = there (Has-append row xs ys h)

  -- rows that hold all the needed ones
  abbrev Covers : List (Row D) → List (Row D) → Type 0
  Covers rows needed = (row : Row D) → Has row needed → Has row rows

  fill_events-IsTrailed :
      (rows : List (Row D)) (fills : List (FillEvent D))
      → Covers rows (fill_rows fills)
      → IsTrailed rows (fill_events fills)
  fill_events-IsTrailed rows [] h = tt
  fill_events-IsTrailed rows (f ∷ fills) h =
      (h (fill_row f) here, fill_events-IsTrailed rows fills (λ row k. h row (there k)))

  cancel_events-IsTrailed :
      (rows : List (Row D)) (orders : List (String × String))
      → Covers rows (cancelled_rows orders)
      → IsTrailed rows (cancel_events orders)
  cancel_events-IsTrailed rows [] h = tt
  cancel_events-IsTrailed rows ((i, s) ∷ orders) h =
      (h (cancelled_row i) here, cancel_events-IsTrailed rows orders (λ row k. h row (there k)))

module _ {D S : Type 0} (exchange : ExchangeAdapter D S) (database : ℕ → Option Exception) where
  commit-IsTrailed :
      {A : Type 0} (failure : Option Exception) (rows : List (Row D)) (events : List (Effect D))
      (answer : A) (r : Router D S)
      → ((more : List (Row D)) → Covers more rows → IsTrailed more events)
      → IsTrailed [] r.log
      → IsTrailed [] (commit exchange database failure rows events answer r).1.log
  unfolding commit
  commit-IsTrailed (some exception) rows events answer r told h = h
  commit-IsTrailed none rows events answer r told h =
      IsTrailed-append [] r.log (committed rows ∷ events) h
        (told (rows ++ rows_after [] r.log) (λ row k. Has-append row rows (rows_after [] r.log) k))

  transact-IsTrailed :
      {A : Type 0} (rows : List (Row D)) (events : List (Effect D)) (answer : A) (r : Router D S)
      → ((more : List (Row D)) → Covers more rows → IsTrailed more events)
      → IsTrailed [] r.log
      → IsTrailed [] (transact exchange database rows events answer r).1.log
  unfolding transact
  transact-IsTrailed rows events answer r told h =
      commit-IsTrailed (database r.transactions) rows events answer r told h

  remember-IsTrailed :
      (intent : OrderIntent D) (order : SubmittedOrder D)
      (placed : Result (List (FillEvent D)) × Router D S)
      → IsTrailed [] placed.1.log
      → IsTrailed [] (remember exchange database intent order placed).1.log
  unfolding remember
  remember-IsTrailed intent order (raised exception, r) h = h
  remember-IsTrailed intent order (ok fills, r) h = h

  after_placement-IsTrailed :
      (intent : OrderIntent D) (answer : Result (PlacementResult D)) (r : Router D S)
      → IsTrailed [] r.log
      → IsTrailed [] (after_placement exchange database intent answer r).1.log
  unfolding after_placement persist_placement
  after_placement-IsTrailed intent (raised exception) r h = h
  after_placement-IsTrailed intent (ok result) r h =
      let fills = result.immediate_fills in
      remember-IsTrailed intent result.order
        (transact exchange database (order_row result.order ∷ fill_rows fills)
          (published (order_submitted result.order) ∷ fill_events fills) fills r)
        (transact-IsTrailed (order_row result.order ∷ fill_rows fills)
          (published (order_submitted result.order) ∷ fill_events fills) fills r
          (λ more c. (
            c (order_row result.order) here,
            fill_events-IsTrailed more fills (λ row k. c row (there k)),
          ))
          h)

  after_cancel-IsTrailed :
      (orders : List (String × String)) (answer : Result (Unit {0})) (r : Router D S)
      → IsTrailed [] r.log
      → IsTrailed [] (after_cancel exchange database orders answer r).1.log
  unfolding after_cancel
  after_cancel-IsTrailed orders (raised exception) r h = h
  after_cancel-IsTrailed orders (ok done) r h =
      transact-IsTrailed (cancelled_rows orders) (cancel_events orders) (length orders) r
        (λ more c. cancel_events-IsTrailed more orders c) h

  abbrev pub router_step : RouterCall D → Router D S → Router D S
  router_step (to_submit intent) r = (submit exchange database intent r).1
  router_step to_cancel r = (cancel_open exchange database r).1
  router_step (to_deliver fills) r = (deliver_fills exchange database fills r).1

  abbrev pub router_run : List (RouterCall D) → Router D S → Router D S
  router_run [] r = r
  router_run (c ∷ calls) r = router_run calls (router_step c r)

  router_step-IsTrailed :
      (c : RouterCall D) (r : Router D S) → IsTrailed [] r.log → IsTrailed [] (router_step c r).log
  unfolding submit cancel_open deliver_fills
  router_step-IsTrailed (to_submit intent) r h =
      after_placement-IsTrailed intent (exchange.place_order intent r.adapter).0
        (record r { adapter = (exchange.place_order intent r.adapter).1 }) h
  router_step-IsTrailed to_cancel r h = elim (Bool-cases (is_empty r.open_orders)) [
    | inl nothing ↦ rw (nothing, IsTrailed) h
    | inr some_open ↦
        rw (some_open, IsTrailed)
          (after_cancel-IsTrailed r.open_orders
            (cancel_all exchange database r.open_orders r.adapter).0
            (record r {
              adapter = (cancel_all exchange database r.open_orders r.adapter).1;
              open_orders = [];
            })
            h)
  ]
  router_step-IsTrailed (to_deliver fills) r h =
      transact-IsTrailed (fill_rows fills) (fill_events fills) tt
        (record r { open_orders = pop_filled fills r.open_orders })
        (λ more c. fill_events-IsTrailed more fills c) h

  -- Over any sequence of calls, and whichever calls of the venue and transactions raise, the router
  -- publishes an event only after its row has been committed.
  pub router_run-IsTrailed :
      (calls : List (RouterCall D)) (r : Router D S)
      → IsTrailed [] r.log
      → IsTrailed [] (router_run calls r).log
  router_run-IsTrailed [] r h = h
  router_run-IsTrailed (c ∷ calls) r h =
      router_run-IsTrailed calls (router_step c r) (router_step-IsTrailed c r h)
