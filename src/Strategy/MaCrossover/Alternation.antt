-- ===== src/Strategy/MaCrossover/Alternation.antt =====
-- The one position of strategies/ma_crossover.py over a stream of bars.
use xbottrader.Prelude.{
  ltb, Bool-cases, length, ok, ◌≡◌, refl, inl, inr, Bool, true, false, not, ◌||◌, Option, none,
  some, List, [], ◌∷◌, arith, str_eq,
}
use xbottrader.Decimal.{Decimal, ◌⊘◌, is_pos, is_nonpos, HasSigns}
use xbottrader.Strategy.Base.{
  buy, sell, Bar, number_tag, StrategyState, market_intent, market_order_lem,
}
use xbottrader.Strategy.Runs.{run, Answers, Accepts, run-Accepts}
use xbottrader.Strategy.Window.{push_close}
use xbottrader.Strategy.Position.{
  PositionStep, open_long, close_long, PositionSlots, HoldsPosition, held_of_HoldsPosition, Turns,
}
use xbottrader.Strategy.MaCrossover.{
  MaCrossoverParams, MaSlots, has_flipped, ma_crossover_params, is_above_of, ma_trade, on_bar,
}

module _ {D : Type 0} ⦃d : Decimal D⦄ where
  -- the state holds the position of the book
  abbrev pub Holds : Option D → StrategyState (MaSlots D) → Type 0
  Holds book s = HoldsPosition book s.custom.position

module _ {D : Type 0} ⦃d : Decimal D⦄ (signs : HasSigns D) (p : MaCrossoverParams D)
    (valid : ma_crossover_params p ≡ ok p) where
  quote_pos : is_pos p.position_quote ≡ true
  unfolding ma_crossover_params
  quote_pos = ground arith

  ma_trade-Turns :
      (bar : Bar D) (was : Option Bool) (above : Bool) (slots : PositionSlots D) (book : Option D)
      → is_pos bar.close ≡ true
      → HoldsPosition book slots
      → Turns book bar (ma_trade p bar was above slots)
  unfolding ma_trade
  ma_trade-Turns bar was above slots book h k = elim (Bool-cases (has_flipped was above)) [
    | inr same ↦ ([], slots, book, ground arith, refl, k)
    | inl flip ↦ flipped above book flip k
  ]
    where
      qty : D
      qty = p.position_quote ⊘ bar.close

      qty_pos : is_pos qty ≡ true
      qty_pos = signs.div_pos p.position_quote bar.close quote_pos h

      flipped :
          (above' : Bool) (book' : Option D)
          → has_flipped was above' ≡ true
          → HoldsPosition book' slots
          → Turns book' bar (ma_trade p bar was above' slots)
      flipped true none flip k' = (
        market_intent p.symbol buy qty (number_tag "ma-cross-up" bar.ts_ms) ∷ [],
        record { in_position = true; held_qty = some (some qty) },
        some qty,
        ground
            (arith, market_order_lem p.symbol buy qty (number_tag "ma-cross-up" bar.ts_ms) qty_pos),
        (some qty, open_long refl refl refl, refl),
        (refl, refl, qty_pos),
      )
      flipped true (some q) flip k' = ([], slots, some q, ground arith, refl, k')
      flipped false none flip k' = ([], slots, none, ground arith, refl, k')
      flipped false (some q) flip k' = (
        market_intent p.symbol sell q (number_tag "ma-cross-down" bar.ts_ms) ∷ [],
        record { in_position = false; held_qty = some none },
        none,
        ground (
          arith,
          held_of_HoldsPosition q slots k',
          market_order_lem p.symbol sell q (number_tag "ma-cross-down" bar.ts_ms) k'.2,
        ),
        (none, close_long refl refl refl, refl),
        refl,
      )

  on_bar-Answers :
      (bar : Bar D) (s : StrategyState (MaSlots D)) (book : Option D)
      → Holds book s
      → Answers PositionStep Holds book bar (on_bar p bar s)
  unfolding on_bar
  on_bar-Answers bar s book h =
      let closes = push_close p.slow_period bar.close s.custom.closes in
      let is_above = is_above_of p closes in
      elim (Bool-cases (not (str_eq bar.symbol p.symbol) || is_nonpos bar.close)) [
        | inl skip ↦ ([], s, book, ground arith, refl, h)
        | inr go ↦ elim (Bool-cases (ltb (length closes) p.slow_period)) [
          | inl short ↦ (
            [],
            record s { custom = record s.custom { closes = closes } },
            book,
            ground arith,
            refl,
            h,
          )
          | inr full ↦
              let (os, slots, after, e, r, k) =
                ma_trade-Turns bar s.custom.was_above is_above s.custom.position book (ground arith)
                  h in
              (
                os,
                record s {
                  custom = record { closes = closes; was_above = some is_above; position = slots };
                },
                after,
                rw (go, full, e),
                r,
                k,
              )
        ]
      ]

  -- Over any stream of bars the strategy returns: a buy comes only without an open position, a sell
  -- is of exactly the open position and closes it, so that the two alternate.
  pub ma_run-PositionStep :
      (bars : List (Bar D)) (s : StrategyState (MaSlots D)) (book : Option D)
      → Holds book s
      → Accepts PositionStep Holds book (run (on_bar p) bars s)
  ma_run-PositionStep bars s book h =
      run-Accepts PositionStep Holds (on_bar p) on_bar-Answers bars s book h
