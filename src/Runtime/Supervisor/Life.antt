-- ===== src/Runtime/Supervisor/Life.antt =====
-- The life of a bot in runtime/supervisor.py: the events that it publishes, and how it ends.
use xbottrader.Runtime.Trading.{OrderRouter, Desk, trade_bar}
use xbottrader.Strategy.Base.{OnBar}
use xbottrader.Prelude.{
  Bool-cases, Option-cases, Exception, Result, raised, ok, ℕ, ◌≡◌, refl, sym, ◌∙◌, inl, inr, Bool,
  true, false, ◌&&◌, Option, none, some, List, [], ◌∷◌, ◌++◌, arith,
}
use xbottrader.Decimal.{Decimal}
use xbottrader.Runtime.Ledger.{pnl}
use xbottrader.Runtime.Supervisor.{
  running, stopped, errored, paused, Event, bot_started, bot_idle, bot_resumed, bot_stopped,
  bot_circuit_tripped, bot_error, BotHandle, Tick, Flow, go_on, break_loop, return_now, is_stopping,
  is_idle, is_open_at, trusts_mark, is_lost, tripped_at, tripped, check_limit, settle, trade_tick,
  visit_bar, after_visit, run_ticks, run_bot,
}

module _ {D C R : Type 0} ⦃d : Decimal D⦄ where
  -- The loss limit is reached at the last mark, which the market hours and its age let count.
  pub record IsTripped (now_ms : ℕ) (h : BotHandle D C R) (profit max_loss mark position : D)
      : Type 0 where
    pub limit : h.max_loss_quote ≡ some max_loss
    pub marked : h.desk.last_mark ≡ some mark
    pub of_ledger : profit ≡ pnl h.desk.ledger mark
    pub of_position : position ≡ h.desk.ledger.position
    pub lost : is_lost profit max_loss ≡ true
    pub trusted : trusts_mark h now_ms ≡ true

  -- The events from a moment on, where the bot is idle or trading, to its end: it goes idle and
  -- resumes in turn, and ends stopped, with an error, or with a loss limit reached.
  pub data Follows : Bool → List (Event D) → BotHandle D C R → Type 0 where
    goes_idle :
        {events : List (Event D)} {h : BotHandle D C R}
        → Follows true events h
        → Follows false (bot_idle ∷ events) h
    resumes :
        {events : List (Event D)} {h : BotHandle D C R}
        → Follows false events h
        → Follows true (bot_resumed ∷ events) h
    stops :
        {idling : Bool} {h : BotHandle D C R}
        → h.state ≡ stopped
        → Follows idling (bot_stopped ∷ []) h
    fails :
        {idling : Bool} {exception : Exception} {h : BotHandle D C R}
        → h.state ≡ errored
        → h.last_error ≡ some exception
        → Follows idling (bot_error exception ∷ []) h
    trips :
        {now_ms : ℕ} {profit max_loss mark position : D} {h : BotHandle D C R}
        → h.state ≡ paused
        → IsTripped now_ms h profit max_loss mark position
        → Follows false (bot_circuit_tripped profit max_loss mark position ∷ []) h

  tripped_at-IsTripped :
      (max_loss mark : D) (now_ms : ℕ) (h : BotHandle D C R) (event : Event D)
      → h.max_loss_quote ≡ some max_loss
      → h.desk.last_mark ≡ some mark
      → tripped_at max_loss mark now_ms h ≡ some event
      → (event ≡ bot_circuit_tripped (pnl h.desk.ledger mark) max_loss mark h.desk.ledger.position)
        × IsTripped now_ms h (pnl h.desk.ledger mark) max_loss mark h.desk.ledger.position
  unfolding tripped_at
  tripped_at-IsTripped max_loss mark now_ms h event l m e =
      elim (Bool-cases (trusts_mark h now_ms && is_lost (pnl h.desk.ledger mark) max_loss)) [
        | inl hit ↦ (
          ground arith,
          record {
            limit = l;
            marked = m;
            of_ledger = refl;
            of_position = refl;
            lost = ground arith;
            trusted = ground arith;
          },
        )
        | inr safe ↦ absurd (ground arith)
      ]

  tripped-IsTripped :
      (now_ms : ℕ) (h : BotHandle D C R) (event : Event D)
      → tripped now_ms h ≡ some event
      → (profit : D) × (max_loss : D) × (mark : D) × (position : D) × (event
          ≡ bot_circuit_tripped profit max_loss mark position)
        × IsTripped now_ms h profit max_loss mark position
  unfolding tripped
  tripped-IsTripped now_ms h event e = elim (Option-cases h.max_loss_quote) [
    | inl unlimited ↦
        let never : tripped now_ms h ≡ none = rw unlimited refl in absurd (ground arith)
    | inr (max_loss, l) ↦ elim (Option-cases h.desk.last_mark) [
      | inl unmarked ↦
          let never : tripped now_ms h ≡ none = rw (l, unmarked) refl in absurd (ground arith)
      | inr (mark, m) ↦
          let here : tripped now_ms h ≡ tripped_at max_loss mark now_ms h = rw (l, m) refl in
          let (named, hit) = tripped_at-IsTripped max_loss mark now_ms h event l m (sym here ∙ e) in
          (pnl h.desk.ledger mark, max_loss, mark, h.desk.ledger.position, named, hit)
    ]
  ]

module _ {D C R : Type 0} ⦃d : Decimal D⦄ (router : OrderRouter D R) (cancel_open : R → R)
    (on_bar : OnBar D C) where
  -- How an iteration leaves the loop, and what it published before.
  abbrev Leaves : Bool → Flow → List (Event D) → BotHandle D C R → Type 0
  Leaves idling go_on events h =
      (rest : List (Event D)) (ended : BotHandle D C R)
      → Follows (is_idle h.state) rest ended
      → Follows idling (events ++ rest) ended
  Leaves idling break_loop events h =
      (ended : BotHandle D C R)
      → ended.state ≡ stopped
      → Follows idling (events ++ bot_stopped ∷ []) ended
  Leaves idling return_now events h = Follows idling events h

  settle-Leaves :
      (answer : Result (Unit {0})) (now_ms : ℕ) (h : BotHandle D C R)
      → is_idle h.state ≡ false
      → Leaves false
          (settle router cancel_open on_bar answer now_ms h).1
          (settle router cancel_open on_bar answer now_ms h).0
          (settle router cancel_open on_bar answer now_ms h).2
  unfolding settle check_limit
  settle-Leaves (raised exception) now_ms h awake = fails refl refl
  settle-Leaves (ok done) now_ms h awake = elim (Option-cases (tripped now_ms h)) [
    | inl none_tripped ↦ rw none_tripped (λ rest ended f. rw (← awake) f)
    | inr (event, e) ↦
        let (profit, max_loss, mark, position, named, hit) = tripped-IsTripped now_ms h event e in
        rw (e, named)
          (trips {now_ms = now_ms} refl (record {
            limit = hit.limit;
            marked = hit.marked;
            of_ledger = hit.of_ledger;
            of_position = hit.of_position;
            lost = hit.lost;
            trusted = hit.trusted;
          }))
  ]

  resumes-Leaves :
      (flow : Flow) (events : List (Event D)) (h : BotHandle D C R)
      → Leaves false flow events h
      → Leaves true flow (bot_resumed ∷ events) h
  resumes-Leaves go_on events h leaves = λ rest ended f. resumes (leaves rest ended f)
  resumes-Leaves break_loop events h leaves = λ ended s. resumes (leaves ended s)
  resumes-Leaves return_now events h leaves = resumes leaves

  visit_bar-Leaves :
      (tick : Tick D) (h : BotHandle D C R)
      → Leaves
          (is_idle h.state)
          (visit_bar router cancel_open on_bar tick h).1
          (visit_bar router cancel_open on_bar tick h).0
          (visit_bar router cancel_open on_bar tick h).2
  unfolding visit_bar trade_tick
  visit_bar-Leaves tick h =
      let traded : Result (Unit {0}) × Desk D C R = trade_bar router on_bar tick.bar h.desk in
      elim (Bool-cases (is_stopping h.state)) [
        | inl leaving ↦ rw leaving (λ ended s. stops s)
        | inr staying ↦ elim (Bool-cases (is_open_at h.session tick.now_before)) [
          | inl opened ↦ elim (Bool-cases (is_idle h.state)) [
            | inl asleep ↦
                rw (staying, opened, asleep)
                  (resumes-Leaves _ _ _ (
                    settle-Leaves traded.0 tick.now_after
                      (record h { state = running; desk = traded.1 }) refl))
            | inr awake ↦
                rw (staying, opened, awake)
                  (settle-Leaves traded.0 tick.now_after (record h { desk = traded.1 }) awake)
          ]
          | inr closed ↦ elim (Bool-cases (is_idle h.state)) [
            | inl asleep ↦ rw (staying, closed, asleep) (λ rest ended f. f)
            | inr awake ↦ rw (staying, closed, awake) (λ rest ended f. goes_idle f)
          ]
        ]
      ]

  after_visit-Follows :
      (idling : Bool) (rest : BotHandle D C R → List (Event D) × BotHandle D C R)
      → ((k : BotHandle D C R) → Follows (is_idle k.state) (rest k).0 (rest k).1)
      → (visited : List (Event D) × Flow × BotHandle D C R)
      → Leaves idling visited.1 visited.0 visited.2
      → Follows idling
          (after_visit router cancel_open on_bar visited rest).0
          (after_visit router cancel_open on_bar visited rest).1
  after_visit-Follows idling rest follow_on (events, go_on, h) leaves =
      leaves (rest h).0 (rest h).1 (follow_on h)
  after_visit-Follows idling rest follow_on (events, break_loop, h) leaves =
      leaves (record h { state = stopped }) refl
  after_visit-Follows idling rest follow_on (events, return_now, h) leaves = leaves

  run_ticks-Follows :
      (ticks : List (Tick D)) (ending : Option Exception) (h : BotHandle D C R)
      → Follows
          (is_idle h.state)
          (run_ticks router cancel_open on_bar ticks ending h).0
          (run_ticks router cancel_open on_bar ticks ending h).1
  unfolding run_ticks
  run_ticks-Follows [] none h = stops refl
  run_ticks-Follows [] (some exception) h = fails refl refl
  run_ticks-Follows (tick ∷ ticks) ending h =
      after_visit-Follows (is_idle h.state) (run_ticks router cancel_open on_bar ticks ending)
        (λ k. run_ticks-Follows ticks ending k) (visit_bar router cancel_open on_bar tick h)
        (visit_bar-Leaves tick h)

  -- A bot publishes that it has started, then in turn that it goes idle and resumes, and at its end,
  -- once, what its state then is: stopped, errored with the exception, of a bar or of the source of the
  -- bars, or paused by a loss limit that the profit and loss at the last mark has reached while that mark
  -- counts. The source yields any bars and then ends or raises, and publishing does not raise.
  pub run_bot-Follows :
      (ticks : List (Tick D)) (ending : Option Exception) (h : BotHandle D C R)
      → (events : List (Event D)) × ((run_bot router cancel_open on_bar ticks ending h).0
          ≡ bot_started ∷ events)
        × Follows false events (run_bot router cancel_open on_bar ticks ending h).1
  unfolding run_bot
  run_bot-Follows ticks ending h =
      (_, refl, run_ticks-Follows ticks ending (record h { state = running }))
