-- ===== src/Strategy/Grid/Lots.antt =====
-- The lot stack of strategies/grid.py: what a run sells is what it bought, last in, first out.
use xbottrader.Prelude.{
  Bool-cases, All, Result, ok, ◌-◌, ◌≡◌, refl, inl, inr, true, not, ◌&&◌, ◌||◌, Option, none, some,
  List, [], ◌∷◌, arith, str_eq,
}
use xbottrader.Decimal.{Decimal, ◌⊘◌, ◌⩽◌, ◌⋖◌, is_pos, is_nonpos, IsOrdered, HasSigns}
use xbottrader.Strategy.Base.{
  buy, sell, Bar, price_tag, OrderIntent, StrategyState, market_intent, market_order_lem,
}
use xbottrader.Strategy.Runs.{stamp, run, Replays, Answers, Accepts, run-Accepts}
use xbottrader.Strategy.Grid.{
  GridParams, GridSlots, grid_params, lines, quote_per_level, sorted_asc, sorted_desc, buy_lines,
  sell_lines, trade, on_bar,
}

-- A buy puts its quantity on the stack, and a sell is of the quantity on the top, which it takes
-- off. On an empty stack nothing can be sold.
pub data LotStep {D : Type 0} (lots : List D) (bar : Bar D) (o : OrderIntent D) (after : List D)
    : Type 0 where
  push : o.side ≡ buy → after ≡ o.quantity ∷ lots → LotStep lots bar o after
  pop : o.side ≡ sell → lots ≡ o.quantity ∷ after → LotStep lots bar o after

module _ {D : Type 0} ⦃d : Decimal D⦄ where
  -- The book is the stack of the state, and each lot is positive.
  abbrev pub HoldsLots : List D → StrategyState (GridSlots D) → Type 0
  HoldsLots lots s = (s.custom.lots ≡ lots) × All (λ q. is_pos q ≡ true) lots

  -- What one of the two loops returns: intents that turn the stack into the one returned.
  abbrev Turns : Bar D → List D → Result (List (OrderIntent D) × List D) → Type 0
  Turns bar lots r =
      (os : List (OrderIntent D)) × (after : List D) × (r ≡ ok (os, after))
      × Replays LotStep lots (stamp bar os) after
      × All (λ q. is_pos q ≡ true) after

module _ {D : Type 0} ⦃d : Decimal D⦄ (order : IsOrdered D) (signs : HasSigns D) (p : GridParams D)
    (valid : grid_params p ≡ ok p) where
  quote_per_level_pos : is_pos (quote_per_level p) ≡ true
  unfolding quote_per_level grid_params
  quote_per_level_pos = ground (
    arith,
    signs.div_pos p.total_quote (d.of_ℕ (p.grid_levels - 1)),
    signs.of_ℕ_pos (p.grid_levels - 1),
  )

  -- a line that the close has crossed is positive, and so is its lot
  lot_pos :
      (curr line : D)
      → is_pos curr ≡ true
      → (curr ⩽ line) ≡ true
      → is_pos (quote_per_level p ⊘ line) ≡ true
  lot_pos curr line h k = ground (
    arith,
    signs.div_pos (quote_per_level p) line,
    quote_per_level_pos,
    order.le_trans curr line (d.of_ℕ 0),
  )

  buy_lines-Turns :
      (bar : Bar D) (prev curr : D) (ls lots : List D)
      → is_pos curr ≡ true
      → All (λ q. is_pos q ≡ true) lots
      → Turns bar lots (buy_lines p prev curr ls lots)
  unfolding buy_lines
  buy_lines-Turns bar prev curr [] lots h k = ([], lots, refl, refl, k)
  buy_lines-Turns bar prev curr (line ∷ rest) lots h k =
      let qty = quote_per_level p ⊘ line in
      elim (Bool-cases (line ⋖ prev && curr ⩽ line)) [
        | inl crossed ↦
            let fine : is_pos qty ≡ true = lot_pos curr line h (ground arith) in
            let (os, after, e, r, m) =
              buy_lines-Turns bar prev curr rest (qty ∷ lots) h (fine, k) in
            (
              market_intent p.symbol buy qty (price_tag "grid-buy" line) ∷ os,
              after,
              rw (crossed, market_order_lem _ _ _ _ fine, e),
              (qty ∷ lots, push refl refl, r),
              m,
            )
        | inr missed ↦
            let (os, after, e, r, m) = buy_lines-Turns bar prev curr rest lots h k in
            (os, after, rw (missed, e), r, m)
      ]

  sell_lines-Turns :
      (bar : Bar D) (prev curr : D) (ls lots : List D)
      → All (λ q. is_pos q ≡ true) lots
      → Turns bar lots (sell_lines p prev curr ls lots)
  unfolding sell_lines
  sell_lines-Turns bar prev curr [] lots k = ([], lots, refl, refl, k)
  sell_lines-Turns bar prev curr (line ∷ rest) [] k = sell_lines-Turns bar prev curr rest [] k
  sell_lines-Turns bar prev curr (line ∷ rest) (qty ∷ lots) k =
      elim (Bool-cases (prev ⋖ line && line ⩽ curr)) [
        | inl crossed ↦
            let (os, after, e, r, m) = sell_lines-Turns bar prev curr rest lots k.1 in
            (
              market_intent p.symbol sell qty (price_tag "grid-sell" line) ∷ os,
              after,
              rw (crossed, market_order_lem _ _ _ _ k.0, e),
              (lots, pop refl refl, r),
              m,
            )
        | inr missed ↦
            let (os, after, e, r, m) = sell_lines-Turns bar prev curr rest (qty ∷ lots) k in
            (os, after, rw (missed, e), r, m)
      ]

  trade-Turns :
      (bar : Bar D) (prev : Option D) (curr : D) (lots : List D)
      → is_pos curr ≡ true
      → All (λ q. is_pos q ≡ true) lots
      → Turns bar lots (trade p prev curr lots)
  unfolding trade
  trade-Turns bar none curr lots h k = ([], lots, refl, refl, k)
  trade-Turns bar (some prev) curr lots h k = elim (Bool-cases (curr ⋖ prev)) [
    | inl falls ↦ rw falls (buy_lines-Turns bar prev curr (sorted_desc (lines p)) lots h k)
    | inr no_fall ↦ elim (Bool-cases (prev ⋖ curr)) [
      | inl rises ↦
          rw (no_fall, rises) (sell_lines-Turns bar prev curr (sorted_asc (lines p)) lots k)
      | inr flat ↦ rw (no_fall, flat) ([], lots, refl, refl, k)
    ]
  ]

  on_bar-Answers :
      (bar : Bar D) (s : StrategyState (GridSlots D)) (lots : List D)
      → HoldsLots lots s
      → Answers LotStep HoldsLots lots bar (on_bar p bar s)
  unfolding on_bar
  on_bar-Answers bar s lots h =
      elim (Bool-cases (not (str_eq bar.symbol p.symbol) || is_nonpos bar.close)) [
        | inl skip ↦ rw skip ([], s, lots, refl, refl, h)
        | inr go ↦
            let (os, after, e, r, m) =
              trade-Turns bar s.custom.prev_close bar.close lots (ground arith) h.1 in
            (
              os,
              record s { custom = record { prev_close = some bar.close; lots = after } },
              after,
              rw (go, h.0, e),
              r,
              (refl, m),
            )
      ]

  -- Over any stream of bars the strategy returns. From an empty stack every sell is of the latest
  -- lot bought and not yet sold, in full, and what is left is the stack of the final state.
  pub grid_run-LotStep :
      (bars : List (Bar D)) (s : StrategyState (GridSlots D)) (lots : List D)
      → HoldsLots lots s
      → Accepts LotStep HoldsLots lots (run (on_bar p) bars s)
  grid_run-LotStep bars s lots h =
      run-Accepts LotStep HoldsLots (on_bar p) on_bar-Answers bars s lots h
