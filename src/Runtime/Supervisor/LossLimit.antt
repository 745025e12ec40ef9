-- ===== src/Runtime/Supervisor/LossLimit.antt =====
-- The loss limit of runtime/supervisor.py: a bot goes on to its next bar only within the limit.
use xbottrader.Market.Session.{MarketSession}
use xbottrader.Prelude.{
  Bool-cases, Option-cases, Result, raised, ok, ℕ, ltb, ◌+◌, ◌<◌, ◌≡◌, ◌⊎◌, refl, sym, ◌∙◌, inl,
  inr, true, false, none, some, List, arith,
}
use xbottrader.Decimal.{Decimal, ◌⩽◌, ◌⊖◌, ◌⊗◌}
use xbottrader.Strategy.Base.{OrderIntent, StrategyState, OnBar}
use xbottrader.Runtime.Ledger.{pnl}
use xbottrader.Runtime.Trading.{OrderRouter, Desk, follow, trade_bar}
use xbottrader.Runtime.Supervisor.{
  running, BotHandle, Tick, go_on, return_now, is_stopping, is_idle, is_open_at, trusts_mark,
  tripped_at, tripped, check_limit, settle, trade_tick, visit_bar,
}

module _ {D C R : Type 0} ⦃d : Decimal D⦄ where
  -- The profit and loss at the mark is above the negated limit.
  abbrev pub IsAbove : D → D → BotHandle D C R → Type 0
  IsAbove max_loss mark h =
      (h.desk.ledger.position ⊗ mark ⊖ h.desk.ledger.cash_out ⩽ d.neg max_loss) ≡ false

  -- It is so, or the mark does not count: the bot has a market session that is closed, or an age of marks
  -- that this one is past.
  abbrev pub IsWithin : D → ℕ → ℕ → D → BotHandle D C R → Type 0
  IsWithin max_loss now_ms ts_ms mark h =
      IsAbove max_loss mark h
      ⊎ ((session : MarketSession) × (h.session ≡ some session)
          × ((session.is_open now_ms ≡ false)
              ⊎ ((age : ℕ) × (h.max_mark_age_ms ≡ some age) × (ts_ms + age < now_ms))))

  above-or-uncounted :
      (max_loss mark : D) (now_ms ts_ms : ℕ) (h : BotHandle D C R)
      → h.desk.last_mark_ts_ms ≡ some ts_ms
      → (trusts_mark h now_ms ≡ true → IsAbove max_loss mark h)
      → IsWithin max_loss now_ms ts_ms mark h
  above-or-uncounted max_loss mark now_ms ts_ms h t counts = elim (Option-cases h.session) [
    | inl free ↦ inl (counts (rw free refl))
    | inr (session, guarded) ↦ elim (Bool-cases (session.is_open now_ms)) [
      | inr closed ↦ inr (session, guarded, inl closed)
      | inl opened ↦ elim (Option-cases h.max_mark_age_ms) [
        | inl ageless ↦ inl (counts (rw (guarded, opened, ageless) refl))
        | inr (age, aged) ↦ elim (Bool-cases (ltb (ts_ms + age) now_ms)) [
          | inl old ↦ inr (session, guarded, inr (age, aged, ground arith))
          | inr fresh ↦ inl (counts (rw (guarded, opened, aged, t) (rw fresh refl)))
        ]
      ]
    ]
  ]

  tripped-none :
      (max_loss mark : D) (now_ms ts_ms : ℕ) (h : BotHandle D C R)
      → h.max_loss_quote ≡ some max_loss
      → h.desk.last_mark ≡ some mark
      → h.desk.last_mark_ts_ms ≡ some ts_ms
      → tripped now_ms h ≡ none
      → IsWithin max_loss now_ms ts_ms mark h
  unfolding tripped tripped_at pnl
  tripped-none max_loss mark now_ms ts_ms h l m t e =
      let here : tripped now_ms h ≡ tripped_at max_loss mark now_ms h = rw (l, m) refl in
      let silent : tripped_at max_loss mark now_ms h ≡ none = sym here ∙ e in
      let counts : trusts_mark h now_ms ≡ true → IsAbove max_loss mark h = λ yes. ground arith in
      above-or-uncounted max_loss mark now_ms ts_ms h t counts

module _ {D C R : Type 0} ⦃d : Decimal D⦄ (router : OrderRouter D R) (cancel_open : R → R)
    (on_bar : OnBar D C) where
  settle-IsWithin :
      (answer : Result (Unit {0})) (now_ms ts_ms : ℕ) (max_loss mark : D) (h : BotHandle D C R)
      → h.max_loss_quote ≡ some max_loss
      → h.desk.last_mark ≡ some mark
      → h.desk.last_mark_ts_ms ≡ some ts_ms
      → (settle router cancel_open on_bar answer now_ms h).1 ≡ go_on
      → IsWithin max_loss now_ms ts_ms mark (settle router cancel_open on_bar answer now_ms h).2
  unfolding settle check_limit
  settle-IsWithin (raised exception) now_ms ts_ms max_loss mark h l m t e = absurd (ground arith)
  settle-IsWithin (ok done) now_ms ts_ms max_loss mark h l m t e =
      elim (Option-cases (tripped now_ms h)) [
        | inl quiet ↦ rw quiet (tripped-none max_loss mark now_ms ts_ms h l m t quiet)
        | inr (event, loud) ↦
            let ended : (settle router cancel_open on_bar (ok tt) now_ms h).1 ≡ return_now =
              rw loud refl in
            absurd (ground arith)
      ]

  follow-last_mark :
      (answer : Result (List (OrderIntent D) × StrategyState C)) (desk : Desk D C R)
      → (follow router on_bar answer desk).1.last_mark ≡ desk.last_mark
  unfolding follow
  follow-last_mark (raised exception) desk = refl
  follow-last_mark (ok (intents, state)) desk = refl

  follow-last_mark_ts :
      (answer : Result (List (OrderIntent D) × StrategyState C)) (desk : Desk D C R)
      → (follow router on_bar answer desk).1.last_mark_ts_ms ≡ desk.last_mark_ts_ms
  unfolding follow
  follow-last_mark_ts (raised exception) desk = refl
  follow-last_mark_ts (ok (intents, state)) desk = refl

  trade_tick-IsWithin :
      (tick : Tick D) (max_loss : D) (h : BotHandle D C R)
      → h.max_loss_quote ≡ some max_loss
      → (trade_tick router cancel_open on_bar tick h).1 ≡ go_on
      → IsWithin max_loss tick.now_after tick.bar.ts_ms tick.bar.close
          (trade_tick router cancel_open on_bar tick h).2
  unfolding trade_tick trade_bar
  trade_tick-IsWithin tick max_loss h l e =
      settle-IsWithin _ tick.now_after tick.bar.ts_ms max_loss tick.bar.close
        (record h { desk = (trade_bar router on_bar tick.bar h.desk).1 }) l
        (follow-last_mark (on_bar tick.bar h.desk.strategy_state) _)
        (follow-last_mark_ts (on_bar tick.bar h.desk.strategy_state) _) e

  -- A bot with a loss limit goes on after a bar that it has traded only if its position at the bar's close,
  -- less what it has paid, is above the negated limit, unless it has a market session that is closed
  -- then, or the bar is older than the age given for marks.
  pub visit_bar-IsWithin :
      (tick : Tick D) (max_loss : D) (h : BotHandle D C R)
      → h.max_loss_quote ≡ some max_loss
      → is_open_at h.session tick.now_before ≡ true
      → (visit_bar router cancel_open on_bar tick h).1 ≡ go_on
      → IsWithin max_loss tick.now_after tick.bar.ts_ms tick.bar.close
          (visit_bar router cancel_open on_bar tick h).2
  unfolding visit_bar
  visit_bar-IsWithin tick max_loss h l opened = elim (Bool-cases (is_stopping h.state)) [
    | inl leaving ↦ rw leaving (λ e. absurd (ground arith))
    | inr staying ↦ elim (Bool-cases (is_idle h.state)) [
      | inl asleep ↦
          rw (staying, opened, asleep)
            (trade_tick-IsWithin tick max_loss (record h { state = running }) l)
      | inr awake ↦ rw (staying, opened, awake) (trade_tick-IsWithin tick max_loss h l)
    ]
  ]
