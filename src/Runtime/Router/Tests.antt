-- ===== src/Runtime/Router/Tests.antt =====
-- A router over a paper exchange, and its theorem at a concrete input.
use xbottrader.Prelude.{
  ◌==◌, if◌then◌else◌, length, Exception, runtime_error, ℕ, ◌+◌, ◌≡◌, refl, Option, none, some,
  List, [], ◌∷◌,
}
use xbottrader.Decimal.Whole.{ℤ, pos, whole}
use xbottrader.Strategy.Base.{buy, no_tag, market_intent, limit_intent}
use xbottrader.Exchange.Base.{Draws}
use xbottrader.Exchange.Paper.{
  Paper, paper_adapter, rest_order, pop_order, apply_slippage, build_fill, place_market,
  place_order, cancel_order, paper_exchange,
}
use xbottrader.Runtime.Router.{
  Effect, committed, published, Router, commit, transact, remember, persist_placement,
  after_placement, submit, cancel_all, after_cancel, cancel_open,
}
use xbottrader.Runtime.Router.Trail.{
  RouterCall, to_submit, to_cancel, IsTrailed, router_run, router_run-IsTrailed,
}

abbrev draws : Draws
draws = record { ids = λ n. "id"; utc = λ n. n }

-- the second transaction fails
abbrev database : ℕ → Option Exception
database n = if n == 1 then some (runtime_error "connection lost") else none

abbrev router : Router ℤ (Paper ℤ)
router = record {
  adapter =
      paper_adapter "paper" (record { slippage_bps = 0; fee_bps = 0; fee_currency = "USDT" })
        (some (λ symbol. some (pos 50)));
  open_orders = [];
  transactions = 0;
  log = [];
}

abbrev steps : List (RouterCall ℤ)
steps =
    to_submit (limit_intent "BTC/USDT" buy (pos 1) (pos 40) no_tag)
    ∷ to_submit (market_intent "BTC/USDT" buy (pos 2) no_tag)
    ∷ to_submit (market_intent "BTC/USDT" buy (pos 3) no_tag)
    ∷ to_cancel
    ∷ []

-- the effects by their kind: commits with their number of rows
abbrev kinds : List (Effect ℤ) → List ℕ
kinds [] = []
kinds (committed rows ∷ log) = (100 + length rows) ∷ kinds log
kinds (published event ∷ log) = 0 ∷ kinds log

three_commits :
    kinds (router_run (paper_exchange draws) database steps router).log
    ≡ 101 ∷ 0 ∷ 102 ∷ 0 ∷ 0 ∷ 101 ∷ 0 ∷ []
unfolding submit after_placement persist_placement transact commit remember cancel_open after_cancel
    cancel_all place_order place_market build_fill apply_slippage rest_order cancel_order pop_order
three_commits = refl

router_run-IsTrailed_example :
    IsTrailed [] (router_run (paper_exchange draws) database steps router).log
router_run-IsTrailed_example = router_run-IsTrailed (paper_exchange draws) database steps router tt
