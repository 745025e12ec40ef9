-- ===== src/Runtime/Supervisor.antt =====
-- `Supervisor._run` of apps/bot-engine/app/runtime/supervisor.py: the life of one bot, from its start to
-- the end of its bars, uninterrupted by `stop` and `kill`. Publishing does not raise.
pub mod Life
pub mod LossLimit
mod Tests
use xbottrader.Prelude.{
  ltb, if◌then◌else◌, is_none, Exception, Result, raised, ok, ℕ, ◌+◌, Bool, true, false, not, ◌&&◌,
  ◌||◌, Option, none, some, List, [], ◌∷◌, ◌++◌,
}
use xbottrader.Decimal.{Decimal, ◌⩽◌}
use xbottrader.Strategy.Base.{Bar, OnBar}
use xbottrader.Market.Session.{MarketSession}
use xbottrader.Runtime.Ledger.{pnl}
use xbottrader.Runtime.Trading.{OrderRouter, Desk, trade_bar}

pub data BotState : Type 0 where
  starting running stopping stopped errored paused killed idle : BotState

-- What is published, without the ids of the bot and its user.
pub data Event (D : Type 0) : Type 0 where
  bot_started bot_idle bot_resumed bot_stopped : Event D
  bot_circuit_tripped : D → D → D → D → Event D
  bot_error : Exception → Event D

pub record BotHandle (D C R : Type 0) : Type 0 where
  pub state : BotState
  pub last_error : Option Exception
  pub desk : Desk D C R
  pub max_loss_quote : Option D
  pub session : Option MarketSession
  pub max_mark_age_ms : Option ℕ

-- A bar, with what `_now_ms` reads before it is traded and after.
pub record Tick (D : Type 0) : Type 0 where
  pub bar : Bar D
  pub now_before : ℕ
  pub now_after : ℕ

-- How an iteration of the loop ends.
pub data Flow : Type 0 where
  go_on break_loop return_now : Flow

abbrev pub is_stopping : BotState → Bool
is_stopping stopping = true
is_stopping _ = false

abbrev pub is_idle : BotState → Bool
is_idle idle = true
is_idle _ = false

-- `session is None or session.is_open(now_ms)`
abbrev pub is_open_at : Option MarketSession → ℕ → Bool
is_open_at none now_ms = true
is_open_at (some session) now_ms = session.is_open now_ms

-- `now_ms - last_mark_ts_ms > max_mark_age_ms`, written as a sum; false where one is not set
abbrev pub is_stale : Option ℕ → Option ℕ → ℕ → Bool
is_stale none marked now_ms = false
is_stale (some age) none now_ms = false
is_stale (some age) (some marked) now_ms = ltb (marked + age) now_ms

module _ {D C R : Type 0} where
  -- the checks of `_tripped` on the mark, which are skipped without a session
  abbrev pub trusts_mark : BotHandle D C R → ℕ → Bool
  trusts_mark h now_ms =
      is_none h.session
      || (is_open_at h.session now_ms
          && not (is_stale h.max_mark_age_ms h.desk.last_mark_ts_ms now_ms))

module _ {D : Type 0} ⦃d : Decimal D⦄ where
  -- `pnl > -cap` fails
  abbrev pub is_lost : D → D → Bool
  is_lost profit max_loss = profit ⩽ d.neg max_loss

module _ {D C R : Type 0} ⦃d : Decimal D⦄ where
  -- the part of `_tripped` after `cap` and `last_mark` have been read
  unfoldable pub tripped_at : D → D → ℕ → BotHandle D C R → Option (Event D)
  tripped_at max_loss mark now_ms h =
      let profit = pnl h.desk.ledger mark in
      if trusts_mark h now_ms && is_lost profit max_loss
      then some (bot_circuit_tripped profit max_loss mark h.desk.ledger.position)
      else none

  -- `_tripped`: the event that it publishes when it returns True
  unfoldable pub tripped : ℕ → BotHandle D C R → Option (Event D)
  unfolding tripped_at
  tripped now_ms h = elim h.max_loss_quote [
    | none ↦ none
    | some max_loss ↦ elim h.desk.last_mark [
      | none ↦ none
      | some mark ↦ tripped_at max_loss mark now_ms h
    ]
  ]

module _ {D C R : Type 0} ⦃d : Decimal D⦄ (router : OrderRouter D R) (cancel_open : R → R)
    (on_bar : OnBar D C) where
  -- what follows the trading of a bar: an exception, a tripped circuit, or the next bar
  unfoldable pub check_limit :
      Option (Event D) → BotHandle D C R → List (Event D) × Flow × BotHandle D C R
  check_limit none h = ([], go_on, h)
  check_limit (some event) h = (
    event ∷ [],
    return_now,
    record h { state = paused; desk = record h.desk { router = cancel_open h.desk.router } },
  )

  unfoldable pub settle :
      Result (Unit {0}) → ℕ → BotHandle D C R → List (Event D) × Flow × BotHandle D C R
  unfolding check_limit
  settle (raised exception) now_ms h = (
    bot_error exception ∷ [],
    return_now,
    record h { state = errored; last_error = some exception },
  )
  settle (ok done) now_ms h = check_limit (tripped now_ms h) h

  -- a bar that is traded, in a bot that is not idle
  unfoldable pub trade_tick : Tick D → BotHandle D C R → List (Event D) × Flow × BotHandle D C R
  unfolding settle
  trade_tick tick h =
      let traded = trade_bar router on_bar tick.bar h.desk in
      settle traded.0 tick.now_after (record h { desk = traded.1 })

  -- the body of `async for bar in bars`
  unfoldable pub visit_bar : Tick D → BotHandle D C R → List (Event D) × Flow × BotHandle D C R
  unfolding trade_tick
  visit_bar tick h =
      let resumed = trade_tick tick (record h { state = running }) in
      if is_stopping h.state
      then ([], break_loop, h)
      else if not (is_open_at h.session tick.now_before)
      then (if is_idle h.state then [] else bot_idle ∷ [], go_on, record h { state = idle })
      else if is_idle h.state
      then (bot_resumed ∷ resumed.0, resumed.1, resumed.2)
      else trade_tick tick h

  -- after the loop
  abbrev pub finish : BotHandle D C R → List (Event D) × BotHandle D C R
  finish h = (bot_stopped ∷ [], record h { state = stopped })

  -- whether the loop goes on, and otherwise how it ends
  abbrev pub after_visit :
      List (Event D) × Flow × BotHandle D C R
      → (BotHandle D C R → List (Event D) × BotHandle D C R)
      → List (Event D) × BotHandle D C R
  after_visit (events, go_on, h) rest = (events ++ (rest h).0, (rest h).1)
  after_visit (events, break_loop, h) rest = (events ++ (finish h).0, (finish h).1)
  after_visit (events, return_now, h) rest = (events, h)

  -- the `except Exception` of the loop
  abbrev pub fail : Exception → BotHandle D C R → List (Event D) × BotHandle D C R
  fail exception h =
      (bot_error exception ∷ [], record h { state = errored; last_error = some exception })

  -- the loop over the bars that the source yields before it ends or raises
  unfoldable pub run_ticks :
      List (Tick D) → Option Exception → BotHandle D C R → List (Event D) × BotHandle D C R
  unfolding visit_bar
  run_ticks [] none h = finish h
  run_ticks [] (some exception) h = fail exception h
  run_ticks (tick ∷ ticks) ending h = after_visit (visit_bar tick h) (run_ticks ticks ending)

  unfoldable pub run_bot :
      List (Tick D) → Option Exception → BotHandle D C R → List (Event D) × BotHandle D C R
  unfolding run_ticks
  run_bot ticks ending h =
      let ended = run_ticks ticks ending (record h { state = running }) in
      (bot_started ∷ ended.0, ended.1)
