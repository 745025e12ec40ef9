-- ===== src/Strategy/Momentum/Alternation.antt =====
-- The one position of strategies/python/momentum.py over a stream of bars.
use xbottrader.Prelude.{
  ltb, Bool-cases, length, ok, ◌+◌, ◌≡◌, refl, inl, inr, true, false, not, ◌&&◌, ◌||◌, Option, none,
  some, List, [], ◌∷◌, arith, str_eq,
}
use xbottrader.Decimal.{Decimal, ◌⊖◌, ◌⊗◌, ◌⊘◌, ◌⩽◌, is_pos, is_nonpos, HasSigns}
use xbottrader.Strategy.Base.{
  buy, sell, Bar, ClientTag, number_tag, StrategyState, market_intent, market_order_lem,
}
use xbottrader.Strategy.Runs.{run, Answers, Accepts, run-Accepts}
use xbottrader.Strategy.Window.{push_close}
use xbottrader.Strategy.Position.{
  PositionStep, open_long, close_long, PositionSlots, HoldsPosition, held_of_HoldsPosition, Turns,
}
use xbottrader.Strategy.Momentum.{
  MomentumParams, MomentumSlots, momentum_params, momentum_trade, momentum_signal, on_bar,
}

module _ {D : Type 0} ⦃d : Decimal D⦄ where
  -- the state holds the position of the book
  abbrev pub Holds : Option D → StrategyState (MomentumSlots D) → Type 0
  Holds book s = HoldsPosition book s.custom.position

module _ {D : Type 0} ⦃d : Decimal D⦄ (signs : HasSigns D) (p : MomentumParams D)
    (valid : momentum_params p ≡ ok p) where
  qty_pos : (bar : Bar D) → is_pos bar.close ≡ true → is_pos (p.quote_amount ⊘ bar.close) ≡ true
  unfolding momentum_params
  qty_pos bar h = ground (arith, signs.div_pos p.quote_amount bar.close)

  opens :
      (bar : Bar D) (ref : D) (slots : PositionSlots D)
      → is_pos bar.close ≡ true
      → HoldsPosition none slots
      → Turns none bar (momentum_trade p bar ref slots)
  unfolding momentum_trade
  opens bar ref slots h k =
      let qty = p.quote_amount ⊘ bar.close in
      let tag : ClientTag D = number_tag "momentum-up" bar.ts_ms in
      let placed = market_order_lem p.symbol buy qty tag (qty_pos bar h) in
      elim (Bool-cases
        (not (is_nonpos ref) && p.threshold_pct ⩽ ((bar.close ⊖ ref) ⊘ ref ⊗ d.of_ℕ 100))) [
          | inl rose ↦ (
            market_intent p.symbol buy qty tag ∷ [],
            record { in_position = true; held_qty = some (some qty) },
            some qty,
            ground (arith, placed),
            (some qty, open_long refl refl refl, refl),
            (refl, refl, qty_pos bar h),
          )
          | inr idle ↦ ([], slots, none, ground arith, refl, k)
        ]

  closes_or_waits :
      (bar : Bar D) (ref q : D) (slots : PositionSlots D)
      → HoldsPosition (some q) slots
      → Turns (some q) bar (momentum_trade p bar ref slots)
  unfolding momentum_trade
  closes_or_waits bar ref q slots k =
      let tag : ClientTag D = number_tag "momentum-down" bar.ts_ms in
      elim (Bool-cases
        (not (is_nonpos ref) && ((bar.close ⊖ ref) ⊘ ref ⊗ d.of_ℕ 100) ⩽ d.neg p.threshold_pct)) [
          | inl fell ↦ (
            market_intent p.symbol sell q tag ∷ [],
            record { in_position = false; held_qty = some none },
            none,
            ground
                (arith, held_of_HoldsPosition q slots k, market_order_lem p.symbol sell q tag k.2),
            (none, close_long refl refl refl, refl),
            refl,
          )
          | inr idle ↦ ([], slots, some q, ground arith, refl, k)
        ]

  momentum_trade-Turns :
      (bar : Bar D) (ref : D) (slots : PositionSlots D) (book : Option D)
      → is_pos bar.close ≡ true
      → HoldsPosition book slots
      → Turns book bar (momentum_trade p bar ref slots)
  momentum_trade-Turns bar ref slots none h k = opens bar ref slots h k
  momentum_trade-Turns bar ref slots (some q) h k = closes_or_waits bar ref q slots k

  momentum_signal-Turns :
      (bar : Bar D) (closes : List D) (slots : PositionSlots D) (book : Option D)
      → is_pos bar.close ≡ true
      → HoldsPosition book slots
      → Turns book bar (momentum_signal p bar closes slots)
  unfolding momentum_signal
  momentum_signal-Turns bar [] slots book h k = ([], slots, book, ground arith, refl, k)
  momentum_signal-Turns bar (ref ∷ closes) slots book h k =
      elim (Bool-cases (ltb (length (ref ∷ closes)) (p.lookback + 1))) [
        | inl short ↦ rw short ([], slots, book, refl, refl, k)
        | inr full ↦ rw full (momentum_trade-Turns bar ref slots book h k)
      ]

  on_bar-Answers :
      (bar : Bar D) (s : StrategyState (MomentumSlots D)) (book : Option D)
      → Holds book s
      → Answers PositionStep Holds book bar (on_bar p bar s)
  unfolding on_bar
  on_bar-Answers bar s book h =
      let closes = push_close (p.lookback + 1) bar.close s.custom.closes in
      elim (Bool-cases (not (str_eq bar.symbol p.symbol) || is_nonpos bar.close)) [
        | inl skip ↦ ([], s, book, ground arith, refl, h)
        | inr go ↦
            let (os, slots, after, e, r, k) =
              momentum_signal-Turns bar closes s.custom.position book (ground arith) h in
            (
              os,
              record s { custom = record { closes = closes; position = slots } },
              after,
              rw (go, e),
              r,
              k,
            )
      ]

  -- Over any stream of bars the strategy returns: a buy comes only without an open position, a sell
  -- is of exactly the open position and closes it, so that the two alternate.
  pub momentum_run-PositionStep :
      (bars : List (Bar D)) (s : StrategyState (MomentumSlots D)) (book : Option D)
      → Holds book s
      → Accepts PositionStep Holds book (run (on_bar p) bars s)
  momentum_run-PositionStep bars s book h =
      run-Accepts PositionStep Holds (on_bar p) on_bar-Answers bars s book h
