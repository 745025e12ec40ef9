-- ===== src/Strategy/AiSignal/Consumption.antt =====
-- What strategies/ai_signal.py makes of the decisions, whatever the companion writes and when.
use xbottrader.Prelude.{
  or_default, Bool-cases, ok, ℕ, ◌≤◌, ◌<◌, String, ◌≡◌, refl, inl, inr, true, not, ◌&&◌, ◌||◌,
  Option, none, some, List, [], ◌∷◌, arith, str_eq,
}
use xbottrader.Decimal.{Decimal, ◌⊕◌, ◌⊘◌, zero_of, is_pos, is_nonpos, HasSigns}
use xbottrader.Strategy.Base.{
  buy, sell, Bar, ClientTag, number_tag, OrderIntent, StrategyState, market_intent,
  market_order_lem,
}
use xbottrader.Strategy.Runs.{run, Answers, Accepts, run-Accepts}
use xbottrader.Strategy.AiSignal.{
  AiSignalParams, Signal, AiSlots, fresh_seq, ai_signal_params, push_window, act, consume, on_bar,
  write_signal, on_input,
}

-- What is held, and the last decision that was traded on.
pub record AiBook (D : Type 0) : Type 0 where
  pub held : D
  pub seen : ℕ

module _ {D : Type 0} ⦃d : Decimal D⦄ where
  -- An intent carries the number of a later decision than the one before. A buy adds to what is
  -- held; a sell is of all that is held, which is positive, and leaves nothing.
  pub data AiStep (before : AiBook D) (input : Option Signal × Bar D) (o : OrderIntent D)
      (after : AiBook D) : Type 0 where
    bought :
        o.side ≡ buy
        → after.held ≡ before.held ⊕ o.quantity
        → o.client_tag ≡ number_tag "ai" after.seen
        → before.seen < after.seen
        → AiStep before input o after
    sold :
        o.side ≡ sell
        → o.quantity ≡ before.held
        → is_pos before.held ≡ true
        → after.held ≡ zero_of D
        → o.client_tag ≡ number_tag "ai" after.seen
        → before.seen < after.seen
        → AiStep before input o after

  -- The state holds what the book holds, and has consumed at least what the book has seen.
  pub record Holds (book : AiBook D) (s : StrategyState (AiSlots D)) : Type 0 where
    pub same_held : or_default (zero_of D) s.custom.held_qty ≡ book.held
    pub seen_le : book.seen ≤ or_default 0 s.custom.consumed_seq

fresh_seq-lt :
    (signal : Option Signal) (consumed seq : ℕ) (action : String)
    → fresh_seq signal consumed ≡ some (seq, action)
    → consumed < seq
fresh_seq-lt signal consumed seq action h = ground arith

module _ {D : Type 0} ⦃d : Decimal D⦄ (signs : HasSigns D) (p : AiSignalParams D)
    (valid : ai_signal_params p ≡ ok p) where
  qty_pos : (bar : Bar D) → is_pos bar.close ≡ true → is_pos (p.quote_amount ⊘ bar.close) ≡ true
  unfolding ai_signal_params
  qty_pos bar h = ground (arith, signs.div_pos p.quote_amount bar.close)

  act-Answers :
      (input : Option Signal × Bar D) (bar : Bar D) (seq : ℕ) (action : String)
      (s : StrategyState (AiSlots D)) (book : AiBook D)
      → is_pos bar.close ≡ true
      → Holds book s
      → or_default 0 s.custom.consumed_seq < seq
      → Answers AiStep Holds book input (act p bar seq action s)
  unfolding act
  act-Answers input bar seq action s book h k fresh =
      let slots : AiSlots D = record s.custom { consumed_seq = some seq } in
      let held = or_default (zero_of D) s.custom.held_qty in
      let qty = p.quote_amount ⊘ bar.close in
      let tag : ClientTag D = number_tag "ai" seq in
      elim (Bool-cases (str_eq action "buy")) [
        | inl buys ↦ (
          market_intent p.symbol buy qty tag ∷ [],
          record {
            last_action_ts_ms = some bar.ts_ms;
            custom = record slots { held_qty = some (held ⊕ qty) };
          },
          record { held = held ⊕ qty; seen = seq },
          rw (buys, market_order_lem p.symbol buy qty tag (qty_pos bar h)),
          (
            record { held = held ⊕ qty; seen = seq },
            bought refl (rw k.same_held) refl (omega (arith, k.seen_le)),
            refl,
          ),
          record { same_held = refl; seen_le = omega arith },
        )
        | inr no_buy ↦ elim (Bool-cases (str_eq action "sell" && is_pos held)) [
          | inl sells ↦
              let some_held : is_pos held ≡ true = ground arith in
              (
                market_intent p.symbol sell held tag ∷ [],
                record {
                  last_action_ts_ms = some bar.ts_ms;
                  custom = record slots { held_qty = some (zero_of D) };
                },
                record { held = zero_of D; seen = seq },
                rw (no_buy, sells, market_order_lem p.symbol sell held tag some_held),
                (
                  record { held = zero_of D; seen = seq },
                  sold refl k.same_held (rw (← k.same_held) some_held) refl refl
                      (omega (arith, k.seen_le)),
                  refl,
                ),
                record { same_held = refl; seen_le = omega arith },
              )
          | inr holds ↦ (
            [],
            record s { custom = slots },
            book,
            rw (no_buy, holds),
            refl,
            record { same_held = k.same_held; seen_le = omega (arith, k.seen_le) },
          )
        ]
      ]

  consume-Answers :
      (input : Option Signal × Bar D) (bar : Bar D) (s : StrategyState (AiSlots D))
      (book : AiBook D) (fresh : Option (ℕ × String))
      → is_pos bar.close ≡ true
      → Holds book s
      → fresh_seq s.custom.signal (or_default 0 s.custom.consumed_seq) ≡ fresh
      → Answers AiStep Holds book input (consume p bar fresh s)
  unfolding consume
  consume-Answers input bar s book none h k e = ([], s, book, refl, refl, k)
  consume-Answers input bar s book (some (seq, action)) h k e =
      act-Answers input bar seq action s book h k (fresh_seq-lt s.custom.signal _ seq action e)

  on_bar-Answers :
      (input : Option Signal × Bar D) (bar : Bar D) (s : StrategyState (AiSlots D))
      (book : AiBook D)
      → Holds book s
      → Answers AiStep Holds book input (on_bar p bar s)
  unfolding on_bar
  on_bar-Answers input bar s book k =
      let windowed : StrategyState (AiSlots D) = record s {
        custom = record s.custom { closes = push_window p.lookback_bars bar.close s.custom.closes };
      } in
      let k' : Holds book windowed = record { same_held = k.same_held; seen_le = k.seen_le } in
      elim (Bool-cases (not (str_eq bar.symbol p.symbol) || is_nonpos bar.close)) [
        | inl skip ↦ rw skip ([], s, book, refl, refl, k)
        | inr go ↦ rw go (consume-Answers input bar windowed book _ (ground arith) k' refl)
      ]

  on_input-Answers :
      (input : Option Signal × Bar D) (s : StrategyState (AiSlots D)) (book : AiBook D)
      → Holds book s
      → Answers AiStep Holds book input (on_input p input s)
  unfolding on_input write_signal
  on_input-Answers (none, bar) s book k = on_bar-Answers (none, bar) bar s book k
  on_input-Answers (some signal, bar) s book k =
      on_bar-Answers (some signal, bar) bar
        (record s { custom = record s.custom { signal = some signal } }) book
        (record { same_held = k.same_held; seen_le = k.seen_le })

  -- Whatever decisions are written before the bars, the strategy returns. No decision is traded on
  -- twice, nor after a later one, and a sell is of all that was bought since the last sell, so that
  -- the strategy never sells what it does not hold.
  pub ai_signal_run-AiStep :
      (inputs : List (Option Signal × Bar D)) (s : StrategyState (AiSlots D)) (book : AiBook D)
      → Holds book s
      → Accepts AiStep Holds book (run (on_input p) inputs s)
  ai_signal_run-AiStep inputs s book h =
      run-Accepts AiStep Holds (on_input p) on_input-Answers inputs s book h
