-- ===== src/Runtime/Trading.antt =====
-- What `Supervisor._run` of apps/bot-engine/app/runtime/supervisor.py does with one bar that it
-- trades: the strategy's intents go to the router, and the fills to the ledger.
use xbottrader.Prelude.{Result, raised, ok, ◌>>=◌, ◌>>◌, ℕ, Option, some, List, [], ◌∷◌}
use xbottrader.Decimal.{Decimal}
use xbottrader.Strategy.Base.{Bar, OrderIntent, StrategyState, OnBar}
use xbottrader.Exchange.Base.{FillEvent, Draws}
use xbottrader.Exchange.Paper.{Paper, update_mark, place_order}
use xbottrader.Runtime.Ledger.{PnlLedger, apply_all}

-- The protocol `OrderRouter`, over the state `R` of a router: the immediate fills of an intent.
pub record OrderRouter (D R : Type 0) : Type 0 where
  pub submit : OrderIntent D → R → Result (List (FillEvent D)) × R

-- The parts of a `BotHandle` that trading changes, with the router's state.
pub record Desk (D C R : Type 0) : Type 0 where
  pub strategy_state : StrategyState C
  pub router : R
  pub ledger : PnlLedger D
  pub last_mark : Option D
  pub last_mark_ts_ms : Option ℕ

module _ {D R : Type 0} ⦃d : Decimal D⦄ (router : OrderRouter D R) where
  -- `for intent in intents: …`: what has been filled before an intent raises stays in the ledger
  unfoldable pub submit_all :
      List (OrderIntent D) → R × PnlLedger D → Result (Unit {0}) × (R × PnlLedger D)
  submit_all [] (r, ledger) = (ok tt, (r, ledger))
  submit_all (intent ∷ intents) (r, ledger) =
      let (answer, r') = router.submit intent r in
      elim answer [
        | raised exception ↦ (raised exception, (r', ledger))
        | ok fills ↦ submit_all intents (r', apply_all ledger fills)
      ]

module _ {D C R : Type 0} ⦃d : Decimal D⦄ (router : OrderRouter D R) (on_bar : OnBar D C) where
  -- what the strategy returned, with the new mark set
  unfoldable pub follow :
      Result (List (OrderIntent D) × StrategyState C) → Desk D C R → Result (Unit {0}) × Desk D C R
  unfolding submit_all
  follow (raised exception) desk = (raised exception, desk)
  follow (ok (intents, state)) desk =
      let (answer, (r, ledger)) = submit_all router intents (desk.router, desk.ledger) in
      (answer, record desk { strategy_state = state; router = r; ledger = ledger })

  -- The bar from the new mark to the last fill.
  unfoldable pub trade_bar : Bar D → Desk D C R → Result (Unit {0}) × Desk D C R
  unfolding follow
  trade_bar bar desk =
      follow (on_bar bar desk.strategy_state)
        (record desk { last_mark = some bar.close; last_mark_ts_ms = some bar.ts_ms })

module _ {D : Type 0} ⦃d : Decimal D⦄ (draws : Draws) where
  -- `ExchangeOrderRouter.submit` of runtime/router.py over a paper exchange, as far as it decides on
  -- fills: what it persists and publishes changes neither the exchange nor the fills.
  abbrev pub paper_router : OrderRouter D (Paper D)
  paper_router = record {
    submit = λ intent s.
        (ok (place_order draws intent s).0.immediate_fills, (place_order draws intent s).1);
  }

  -- The paper feed of exchanges/ccxt_live.py sets the mark before each bar.
  module _ {C : Type 0} (on_bar : OnBar D C) where
    unfoldable pub live_bar : Bar D → Desk D C (Paper D) → Result (Unit {0}) × Desk D C (Paper D)
    unfolding trade_bar
    live_bar bar desk =
        trade_bar paper_router on_bar bar
          (record desk { router = (update_mark draws bar.symbol bar.close desk.router).1 })

    -- The loop of a bot without a market session and without a loss limit: the desk after each bar in
    -- turn, until one raises.
    unfoldable pub live_run : List (Bar D) → Desk D C (Paper D) → Result (List (Desk D C (Paper D)))
    live_run [] desk = ok []
    live_run (bar ∷ bars) desk = do
      let (answer, after) = live_bar bar desk
      answer
      rest ← live_run bars after
      ok (after ∷ rest)
