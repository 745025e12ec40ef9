-- ===== src/Backtest/Engine/Parity.antt =====
-- The parity that the head of backtest/engine.py promises: the equity curve of a backtest is the
-- profit and loss of the ledger of the same bot, run live on a paper exchange.
use xbottrader.Prelude.{
  Bool-cases, Exception, Result, raised, ok, ◌>>=◌, ℕ, ◌≡◌, refl, sym, ap, ◌∙◌, ◌⊎◌, inl, inr, none,
  some, List, [], ◌∷◌, arith,
}
use xbottrader.Decimal.{Decimal, ◌⊕◌, ◌⊖◌, ◌⊗◌, IsExact}
use xbottrader.Strategy.Base.{Bar, OrderIntent, StrategyState, is_buy, OnBar}
use xbottrader.Exchange.Base.{FillEvent, Draws}
use xbottrader.Exchange.Paper.{PaperConfig, Paper, paper_adapter, update_mark, place_order}
use xbottrader.Runtime.Ledger.{PnlLedger, new_ledger, apply, pnl, apply_all}
use xbottrader.Runtime.Trading.{
  Desk, submit_all, follow, trade_bar, paper_router, live_bar, live_run,
}
use xbottrader.Backtest.Engine.{
  Totals, BacktestResult, new_totals, book_fill, book_fills, equity_at, book_intents, replay,
  run_backtest,
}

module _ {D : Type 0} ⦃d : Decimal D⦄ where
  -- The curve of a live run: at each bar the starting cash and the ledger's profit at the close.
  abbrev pub pnl_curve : {C R : Type 0} → D → List (Bar D) → List (Desk D C R) → List (ℕ × D)
  pnl_curve starting_cash [] desks = []
  pnl_curve starting_cash (bar ∷ bars) [] = []
  pnl_curve starting_cash (bar ∷ bars) (desk ∷ desks) =
      (bar.ts_ms, starting_cash ⊕ pnl desk.ledger bar.close) ∷ pnl_curve starting_cash bars desks

  -- A bot before its first bar.
  abbrev pub new_desk : {C : Type 0} → PaperConfig → C → Desk D C (Paper D)
  new_desk config slots = record {
    strategy_state = record { last_action_ts_ms = none; custom = slots };
    router = paper_adapter "paper" config none;
    ledger = new_ledger D;
    last_mark = none;
    last_mark_ts_ms = none;
  }

  -- The totals of a backtest and a ledger that have seen the same fills.
  record Agree (starting_cash : D) (t : Totals D) (ledger : PnlLedger D) : Type 0 where
    pub same_position : t.position ≡ ledger.position
    pub all_cash : t.cash ⊕ ledger.cash_out ≡ starting_cash

Result-cases :
    {A : Type 0} (r : Result A) → ((x : Exception) × (r ≡ raised x)) ⊎ ((a : A) × (r ≡ ok a))
Result-cases (raised x) = inl (x, refl)
Result-cases (ok a) = inr (a, refl)

abbrev before : {A T : Type 0} → A → List A × T → Result (List A × T)
before a (xs, t) = ok (a ∷ xs, t)

abbrev first_of : {A T : Type 0} → List A × T → Result (List A)
first_of (xs, t) = ok xs

-- two runs that agree still do with an element before each
cons_both :
    {A B T : Type 0} (a : A) (b : B) (m : Result (List A × T)) (n : Result (List B))
    (f g : List B → List A)
    → ((bs : List B) → g (b ∷ bs) ≡ a ∷ f bs)
    → (m >>= first_of) ≡ (n >>= λ bs. ok (f bs))
    → (m >>= before a >>= first_of) ≡ (n >>= (λ bs. ok (b ∷ bs)) >>= λ bs. ok (g bs))
cons_both a b (raised x) (raised y) f g h e = cc
cons_both a b (raised x) (ok bs) f g h e = absurd (ground arith)
cons_both a b (ok x) (raised y) f g h e = absurd (ground arith)
cons_both a b (ok x) (ok bs) f g h e = ground (arith, h bs)

-- what is read of a result does not see how it was built
curve_of :
    {A B T : Type 0} (m : Result (List A × T)) (f : List A × T → B) (curve : B → List A)
    → ((x : List A × T) → curve (f x) ≡ x.0)
    → (m >>= (λ x. ok (f x)) >>= λ b. ok (curve b)) ≡ (m >>= first_of)
curve_of (raised x) f curve h = refl
curve_of (ok x) f curve h = ap (λ xs. ok xs) (h x)

module _ {D : Type 0} ⦃d : Decimal D⦄ (exact : IsExact D) where
  add_swap : (a b x : D) → a ⊕ x ⊕ (b ⊕ d.neg x) ≡ a ⊕ b
  add_swap a b x =
      exact.add_assoc a x (b ⊕ d.neg x)
      ∙ ap (λ y. a ⊕ y)
          (ap (λ y. x ⊕ y) (exact.add_comm b (d.neg x))
            ∙ sym (exact.add_assoc x (d.neg x) b)
            ∙ ap (λ y. y ⊕ b) (exact.add-neg x)
            ∙ exact.add_comm (d.of_ℕ 0) b
            ∙ exact.add_zero b)

  -- what a sell moves from the ledger's spending to the cash, and a buy back
  gain_and_spend : (a b x : D) → a ⊕ x ⊕ (b ⊖ x) ≡ a ⊕ b
  gain_and_spend a b x = ap (λ y. a ⊕ x ⊕ y) (exact.sub-eq-add-neg b x) ∙ add_swap a b x

  spend_and_gain : (a b x : D) → a ⊖ x ⊕ (b ⊕ x) ≡ a ⊕ b
  spend_and_gain a b x = exact.add_comm (a ⊖ x) (b ⊕ x) ∙ gain_and_spend b a x ∙ exact.add_comm b a

  equity_at-eq-pnl :
      (starting_cash price : D) (t : Totals D) (ledger : PnlLedger D)
      → Agree starting_cash t ledger
      → equity_at t price ≡ starting_cash ⊕ pnl ledger price
  unfolding pnl
  equity_at-eq-pnl starting_cash price t ledger h =
      rw (h.same_position, ← h.all_cash)
        (sym (gain_and_spend_twice t.cash ledger.cash_out (ledger.position ⊗ price)))
    where
      gain_and_spend_twice : (a b x : D) → a ⊕ b ⊕ (x ⊖ b) ≡ a ⊕ x
      gain_and_spend_twice a b x = gain_and_spend a x b

  book_fill-Agree :
      (starting_cash : D) (t : Totals D) (ledger : PnlLedger D) (fill : FillEvent D)
      → Agree starting_cash t ledger
      → Agree starting_cash (book_fill t fill) (apply ledger fill)
  unfolding book_fill apply
  book_fill-Agree starting_cash t ledger fill h = elim (Bool-cases (is_buy fill.side)) [
    | inl bought ↦ rw bought (record {
      same_position = ap (λ y. y ⊕ fill.quantity) h.same_position;
      all_cash = spend_and_gain t.cash ledger.cash_out _ ∙ h.all_cash;
    })
    | inr sold ↦ rw sold (record {
      same_position = ap (λ y. y ⊖ fill.quantity) h.same_position;
      all_cash = gain_and_spend t.cash ledger.cash_out _ ∙ h.all_cash;
    })
  ]

  book_fills-Agree :
      (starting_cash : D) (t : Totals D) (ledger : PnlLedger D) (fills : List (FillEvent D))
      → Agree starting_cash t ledger
      → Agree starting_cash (book_fills t fills) (apply_all ledger fills)
  unfolding book_fills apply_all
  book_fills-Agree starting_cash t ledger [] h = h
  book_fills-Agree starting_cash t ledger (fill ∷ fills) h =
      book_fills-Agree starting_cash (book_fill t fill) (apply ledger fill) fills
        (book_fill-Agree starting_cash t ledger fill h)

  module _ (draws : Draws) where
    -- the supervisor submits as the backtest books
    submit_all-Agree :
        (starting_cash : D) (intents : List (OrderIntent D)) (adapter : Paper D) (t : Totals D)
        (ledger : PnlLedger D)
        → Agree starting_cash t ledger
        → (after : PnlLedger D) × (submit_all (paper_router draws) intents (adapter, ledger)
            ≡ (ok tt, ((book_intents draws intents adapter t).0, after)))
          × Agree starting_cash (book_intents draws intents adapter t).1 after
    unfolding submit_all book_intents
    submit_all-Agree starting_cash [] adapter t ledger h = (ledger, refl, h)
    submit_all-Agree starting_cash (intent ∷ intents) adapter t ledger h =
        let fills = (place_order draws intent adapter).0.immediate_fills in
        submit_all-Agree starting_cash intents (place_order draws intent adapter).1
          (book_fills t fills) (apply_all ledger fills)
          (book_fills-Agree starting_cash t ledger fills h)

    module _ {C : Type 0} (on_bar : OnBar D C) where
      live_bar_raised :
          (bar : Bar D) (desk : Desk D C (Paper D)) (exception : Exception)
          → on_bar bar desk.strategy_state ≡ raised exception
          → (live_bar draws on_bar bar desk).0 ≡ raised exception
      unfolding live_bar trade_bar follow
      live_bar_raised bar desk exception e = rw e refl

      live_bar_ok :
          (bar : Bar D) (desk : Desk D C (Paper D)) (intents : List (OrderIntent D))
          (state : StrategyState C) (adapter : Paper D) (ledger : PnlLedger D)
          → on_bar bar desk.strategy_state ≡ ok (intents, state)
          → submit_all
              (paper_router draws)
              intents
              ((update_mark draws bar.symbol bar.close desk.router).1, desk.ledger)
            ≡ (ok tt, (adapter, ledger))
          → live_bar draws on_bar bar desk ≡ (
            ok tt,
            record {
              strategy_state = state;
              router = adapter;
              ledger = ledger;
              last_mark = some bar.close;
              last_mark_ts_ms = some bar.ts_ms;
            },
          )
      unfolding live_bar trade_bar follow
      live_bar_ok bar desk intents state adapter ledger e f = rw e (rw f refl)

      replay-eq-live_run :
          (starting_cash : D) (bars : List (Bar D)) (t : Totals D) (desk : Desk D C (Paper D))
          → Agree starting_cash t desk.ledger
          → (do
            (curve, final) ← replay draws on_bar bars desk.router desk.strategy_state t
            ok curve)
            ≡ (do desks ← live_run draws on_bar bars desk; ok (pnl_curve starting_cash bars desks))
      unfolding replay live_run
      replay-eq-live_run starting_cash [] t desk h = refl
      replay-eq-live_run starting_cash (bar ∷ bars) t desk h =
          elim (Result-cases (on_bar bar desk.strategy_state)) [
            | inl (exception, e) ↦ rw (e, live_bar_raised bar desk exception e) refl
            | inr ((intents, state), e) ↦
                let adapter = (update_mark draws bar.symbol bar.close desk.router).1 in
                let t' = (book_intents draws intents adapter t).1 in
                let (ledger, placed, agree) =
                  submit_all-Agree starting_cash intents adapter t desk.ledger h in
                let desk' : Desk D C (Paper D) = record {
                  strategy_state = state;
                  router = (book_intents draws intents adapter t).0;
                  ledger = ledger;
                  last_mark = some bar.close;
                  last_mark_ts_ms = some bar.ts_ms;
                } in
                rw
                  (
                    e,
                    live_bar_ok bar desk intents state (book_intents draws intents adapter t).0
                        ledger e placed,
                  )
                  (cons_both (bar.ts_ms, equity_at t' bar.close) desk'
                    (replay draws on_bar bars desk'.router state t')
                    (live_run draws on_bar bars desk') (pnl_curve starting_cash bars)
                    (pnl_curve starting_cash (bar ∷ bars))
                    (λ desks.
                      ap (λ q. (bar.ts_ms, q) ∷ pnl_curve starting_cash bars desks)
                        (sym (equity_at-eq-pnl starting_cash bar.close t' ledger agree)))
                    (replay-eq-live_run starting_cash bars t' desk' agree))
          ]

      -- The equity curve of a backtest is, at each bar, the starting cash and the profit and loss of
      -- the ledger that the same strategy builds live on a paper exchange over the same bars, without
      -- a market session and a loss limit; where one of the two raises, so does the other. Sums are
      -- not rounded.
      pub run_backtest-eq-live_run :
          (config : PaperConfig) (bars : List (Bar D)) (slots : C) (starting_cash : D)
          → (do
            result ← run_backtest draws on_bar config bars slots starting_cash
            ok result.equity_curve)
            ≡ (do
              desks ← live_run draws on_bar bars (new_desk config slots)
              ok (pnl_curve starting_cash bars desks))
      unfolding run_backtest
      run_backtest-eq-live_run config bars slots starting_cash =
          let desk : Desk D C (Paper D) = new_desk config slots in
          curve_of
            (replay draws on_bar bars desk.router desk.strategy_state (new_totals starting_cash)) _
            (λ (result : BacktestResult D). result.equity_curve) (λ x. refl)
          ∙ replay-eq-live_run starting_cash bars (new_totals starting_cash) desk
              (record { same_position = refl; all_cash = exact.add_zero starting_cash })
