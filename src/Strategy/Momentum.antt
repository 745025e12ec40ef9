-- ===== src/Strategy/Momentum.antt =====
-- packages/xbt-core/xbt_core/strategies/python/momentum.py.
pub mod Alternation
pub mod Params
mod Tests
use xbottrader.Prelude.{
  ltb, if◌then◌else◌, length, value_error, index_error, Result, ok, raised, ◌>>=◌, ◌>>◌, raise_if,
  ℕ, ◌+◌, String, true, false, not, ◌&&◌, ◌||◌, none, some, List, [], ◌∷◌, str_eq,
}
use xbottrader.Decimal.{Decimal, ◌⊖◌, ◌⊗◌, ◌⊘◌, ◌⩽◌, is_nonpos}
use xbottrader.Strategy.Base.{buy, sell, Bar, number_tag, OrderIntent, market_order, OnBar}
use xbottrader.Strategy.Window.{push_close}
use xbottrader.Strategy.Position.{PositionSlots, held}

pub record MomentumParams (D : Type 0) : Type 0 where
  pub symbol : String
  pub lookback : ℕ
  pub threshold_pct : D
  pub quote_amount : D

-- the keys of `state.custom`
pub record MomentumSlots (D : Type 0) : Type 0 where
  pub closes : List D
  pub position : PositionSlots D

module _ {D : Type 0} ⦃d : Decimal D⦄ where
  -- `MomentumParams.__post_init__`
  unfoldable pub momentum_params : MomentumParams D → Result (MomentumParams D)
  momentum_params p = do
    raise_if (ltb p.lookback 1) (value_error "lookback must be >= 1")
    raise_if (is_nonpos p.threshold_pct) (value_error "threshold_pct must be positive")
    raise_if (is_nonpos p.quote_amount) (value_error "quote_amount must be positive")
    ok p

  -- what follows `ref = closes[0]`
  unfoldable pub momentum_trade :
      MomentumParams D
      → Bar D
      → D
      → PositionSlots D
      → Result (List (OrderIntent D) × PositionSlots D)
  momentum_trade p bar ref slots =
      let change_pct = (bar.close ⊖ ref) ⊘ ref ⊗ d.of_ℕ 100 in
      if is_nonpos ref
      then ok ([], slots)
      else if not slots.in_position && p.threshold_pct ⩽ change_pct
      then (do
        let qty = p.quote_amount ⊘ bar.close
        intent ← market_order p.symbol buy qty (number_tag "momentum-up" bar.ts_ms)
        ok (intent ∷ [], record { in_position = true; held_qty = some (some qty) }))
      else if slots.in_position && change_pct ⩽ d.neg p.threshold_pct
      then (do
        qty ← held slots
        intent ← market_order p.symbol sell qty (number_tag "momentum-down" bar.ts_ms)
        ok (intent ∷ [], record { in_position = false; held_qty = some none }))
      else ok ([], slots)

  -- the branch on the window; `closes[0]` of an empty list raises
  unfoldable pub momentum_signal :
      MomentumParams D
      → Bar D
      → List D
      → PositionSlots D
      → Result (List (OrderIntent D) × PositionSlots D)
  unfolding momentum_trade
  momentum_signal p bar [] slots =
      if ltb 0 (p.lookback + 1)
      then ok ([], slots)
      else raised (index_error "list index out of range")
  momentum_signal p bar (ref ∷ closes) slots =
      if ltb (length (ref ∷ closes)) (p.lookback + 1)
      then ok ([], slots)
      else momentum_trade p bar ref slots

  unfoldable pub on_bar : MomentumParams D → OnBar D (MomentumSlots D)
  on_bar p bar state =
      let slots = state.custom in
      let closes = push_close (p.lookback + 1) bar.close slots.closes in
      if not (str_eq bar.symbol p.symbol) || is_nonpos bar.close then ok ([], state) else do
        (intents, position) ← momentum_signal p bar closes slots.position
        let after : MomentumSlots D = record { closes = closes; position = position }
        ok (intents, record state { custom = after })
