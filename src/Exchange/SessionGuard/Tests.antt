-- ===== src/Exchange/SessionGuard/Tests.antt =====
-- The session guard around a paper exchange, and its theorem at a concrete input.
use xbottrader.Prelude.{
  ltb, leb, if◌then◌else◌, ℕ, ◌+◌, ◌*◌, ◌≡◌, refl, ◌&&◌, none, some, List, [], ◌∷◌,
}
use xbottrader.Decimal.Whole.{ℤ, pos, whole}
use xbottrader.Strategy.Base.{buy, no_tag, OrderIntent, limit_intent}
use xbottrader.Exchange.Base.{Draws}
use xbottrader.Exchange.Paper.{default_config, Paper, paper_adapter, paper_exchange}
use xbottrader.Market.Session.{MarketSession}
use xbottrader.Exchange.SessionGuard.{
  Guarded, AdapterCall, place, session_guarded, calls, passed, with_rejections,
  session_guarded-passed,
}

abbrev draws : Draws
draws = record { ids = λ n. "id"; utc = λ n. n }

-- open from the instant 10 to the instant 20
abbrev session : MarketSession
session = record {
  is_open = λ ts. leb 10 ts && ltb ts 20;
  next_open_ms = λ ts. if ltb ts 10 then some 10 else none;
}

-- the placements are made at 5, 14 and 23
abbrev now_ms : ℕ → ℕ
now_ms n = 5 + 9 * n

abbrev intent : ℕ → OrderIntent ℤ
intent quantity = limit_intent "AAPL" buy (pos quantity) (pos 90) no_tag

abbrev steps : List (AdapterCall ℤ)
steps = place (intent 1) ∷ place (intent 2) ∷ place (intent 3) ∷ []

abbrev guarded : Guarded (Paper ℤ)
guarded = record { inner = paper_adapter "alpaca-paper" default_config none; guard_draws = 0 }

only_the_second : passed (paper_exchange draws) session now_ms draws 0 steps ≡ place (intent 2) ∷ []
only_the_second = refl

session_guarded-passed_example :
    (((calls (session_guarded (paper_exchange draws) session now_ms draws) steps guarded).1).inner
      ≡ (calls
          (paper_exchange draws)
          (passed (paper_exchange draws) session now_ms draws 0 steps)
          guarded.inner).1)
    × ((calls (session_guarded (paper_exchange draws) session now_ms draws) steps guarded).0
        ≡ with_rejections
            (paper_exchange draws)
            session
            now_ms
            draws
            0
            steps
            (calls
              (paper_exchange draws)
              (passed (paper_exchange draws) session now_ms draws 0 steps)
              guarded.inner).0)
session_guarded-passed_example =
    session_guarded-passed (paper_exchange draws) session now_ms draws steps guarded
