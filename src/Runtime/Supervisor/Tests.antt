-- ===== src/Runtime/Supervisor/Tests.antt =====
-- The life of a bot that trades stocks, and its theorem at a concrete input.
use xbottrader.Runtime.Supervisor.LossLimit.{IsWithin, visit_bar-IsWithin}
use xbottrader.Prelude.{runtime_error, leb, ℕ, ◌≡◌, refl, false, none, some, List, [], ◌∷◌}
use xbottrader.Decimal.Whole.{ℤ, pos, negsuc, whole}
use xbottrader.Fixtures.{bar_at, fresh}
use xbottrader.Strategy.Base.{market_order}
use xbottrader.Strategy.Dca.{DcaParams, on_bar}
use xbottrader.Exchange.Base.{Draws}
use xbottrader.Exchange.Paper.{
  Paper, paper_adapter, apply_slippage, build_fill, place_market, place_order,
}
use xbottrader.Market.Session.{MarketSession}
use xbottrader.Runtime.Ledger.{new_ledger, apply, pnl, apply_all}
use xbottrader.Runtime.Trading.{Desk, submit_all, follow, trade_bar, paper_router}
use xbottrader.Runtime.Supervisor.{
  bot_error, starting, idle, Event, bot_started, bot_idle, bot_resumed, bot_circuit_tripped,
  BotHandle, Tick, go_on, tripped_at, tripped, check_limit, settle, trade_tick, visit_bar,
  run_ticks, run_bot,
}
use xbottrader.Runtime.Supervisor.Life.{Follows, run_bot-Follows}

abbrev draws : Draws
draws = record { ids = λ n. "id"; utc = λ n. n }

abbrev plan : DcaParams ℤ
plan = record { symbol = "BTC/USDT"; quote_amount = pos 100; interval_minutes = 1 }

-- open from the instant 10 on
abbrev session : MarketSession
session = record { is_open = λ ts. leb 10 ts; next_open_ms = λ ts. none }

-- the exchange asks `feed`, not the bars, for its price, and fills without a fee
abbrev desk : Desk ℤ Unit (Paper ℤ)
desk = record {
  strategy_state = fresh tt;
  router =
      paper_adapter "paper" (record { slippage_bps = 0; fee_bps = 0; fee_currency = "USDT" })
        (some (λ symbol. some (pos 50)));
  ledger = new_ledger ℤ;
  last_mark = none;
  last_mark_ts_ms = none;
}

-- stops at a loss of 30
abbrev bot : BotHandle ℤ Unit (Paper ℤ)
bot = record {
  state = starting;
  last_error = none;
  desk = desk;
  max_loss_quote = some (pos 30);
  session = some session;
  max_mark_age_ms = none;
}

abbrev tick : ℕ → ℕ → ℕ → Tick ℤ
tick ts price now = record { bar = bar_at ts price; now_before = now; now_after = now }

-- before the opening, a purchase of 2 at 50, a fall that costs 20, and one that costs 40
abbrev ticks : List (Tick ℤ)
ticks = tick 0 50 5 ∷ tick 1 50 11 ∷ tick 2 40 12 ∷ tick 3 30 13 ∷ tick 4 90 14 ∷ []

loses_forty :
    (run_bot (paper_router draws) (λ r. r) (on_bar plan) ticks none bot).0
    ≡ bot_started
      ∷ bot_idle
      ∷ bot_resumed
      ∷ bot_circuit_tripped (negsuc 39) (pos 30) (pos 30) (pos 2)
      ∷ []
unfolding run_bot run_ticks visit_bar trade_tick settle check_limit tripped tripped_at trade_bar
    follow submit_all apply_all apply pnl on_bar market_order place_order place_market build_fill
    apply_slippage
loses_forty = refl

-- the source fails while the market is closed
fails_idle :
    (run_bot
      (paper_router draws)
      (λ r. r)
      (on_bar plan)
      (tick 0 50 5 ∷ [])
      (some (runtime_error "poll"))
      bot).0
    ≡ bot_started ∷ bot_idle ∷ bot_error (runtime_error "poll") ∷ []
unfolding run_bot run_ticks visit_bar
fails_idle = refl

run_bot-Follows_example :
    (events : List (Event ℤ)) × ((run_bot
        (paper_router draws)
        (λ r. r)
        (on_bar plan)
        ticks
        none
        bot).0
      ≡ bot_started ∷ events)
    × Follows false events (run_bot (paper_router draws) (λ r. r) (on_bar plan) ticks none bot).1
run_bot-Follows_example = run_bot-Follows (paper_router draws) (λ r. r) (on_bar plan) ticks none bot

-- the bot holds 2 bought at 50 and sees the mark 40: a loss of 20
abbrev holder : BotHandle ℤ Unit (Paper ℤ)
holder = record bot {
  state = idle;
  desk = record desk {
    strategy_state = record { last_action_ts_ms = some 1; custom = tt };
    ledger = record { position = pos 2; cash_out = pos 100 };
  };
}

goes_on : (visit_bar (paper_router draws) (λ r. r) (on_bar plan) (tick 2 40 12) holder).1 ≡ go_on
unfolding visit_bar trade_tick settle check_limit tripped tripped_at trade_bar follow submit_all pnl
    on_bar
goes_on = refl

visit_bar-IsWithin_example :
    IsWithin
      (pos 30)
      12
      2
      (pos 40)
      (visit_bar (paper_router draws) (λ r. r) (on_bar plan) (tick 2 40 12) holder).2
visit_bar-IsWithin_example =
    visit_bar-IsWithin (paper_router draws) (λ r. r) (on_bar plan) (tick 2 40 12) (pos 30) holder
      refl refl goes_on
