-- ===== src/Strategy/MaCrossover.antt =====
-- packages/xbt-core/xbt_core/strategies/ma_crossover.py.
pub mod Alternation
mod Tests
use xbottrader.Prelude.{
  ltb, leb, if◌then◌else◌, length, last_n, value_error, Result, ok, ◌>>=◌, ◌>>◌, raise_if, ℕ,
  String, Bool, true, false, not, xor, ◌&&◌, ◌||◌, Option, none, some, List, [], ◌∷◌, str_eq,
}
use xbottrader.Decimal.{Decimal, ◌⊘◌, ◌⋖◌, sum, is_nonpos}
use xbottrader.Strategy.Base.{buy, sell, Bar, number_tag, OrderIntent, market_order, OnBar}
use xbottrader.Strategy.Window.{push_close}
use xbottrader.Strategy.Position.{PositionSlots, held}

pub record MaCrossoverParams (D : Type 0) : Type 0 where
  pub symbol : String
  pub fast_period : ℕ
  pub slow_period : ℕ
  pub position_quote : D

-- the keys of `state.custom`; `was_above` is absent until both averages exist
pub record MaSlots (D : Type 0) : Type 0 where
  pub closes : List D
  pub was_above : Option Bool
  pub position : PositionSlots D

-- `was_above is not None and is_above != was_above`
abbrev pub has_flipped : Option Bool → Bool → Bool
has_flipped none is_above = false
has_flipped (some was_above) is_above = xor is_above was_above

module _ {D : Type 0} ⦃d : Decimal D⦄ where
  -- `MaCrossoverParams.__post_init__`
  unfoldable pub ma_crossover_params : MaCrossoverParams D → Result (MaCrossoverParams D)
  ma_crossover_params p = do
    raise_if (ltb p.fast_period 2) (value_error "fast_period must be >= 2")
    raise_if (leb p.slow_period p.fast_period) (value_error "slow_period must exceed fast_period")
    raise_if (is_nonpos p.position_quote) (value_error "position_quote must be positive")
    ok p

  -- `fast > slow`, for a full window
  unfoldable pub is_above_of : MaCrossoverParams D → List D → Bool
  is_above_of p closes =
      let fast = sum (last_n p.fast_period closes) ⊘ d.of_ℕ p.fast_period in
      let slow = sum closes ⊘ d.of_ℕ p.slow_period in slow ⋖ fast

  -- the two branches that trade
  unfoldable pub ma_trade :
      MaCrossoverParams D
      → Bar D
      → Option Bool
      → Bool
      → PositionSlots D
      → Result (List (OrderIntent D) × PositionSlots D)
  ma_trade p bar was_above is_above slots =
      if has_flipped was_above is_above
      then (if is_above && not slots.in_position
          then (do
            let qty = p.position_quote ⊘ bar.close
            intent ← market_order p.symbol buy qty (number_tag "ma-cross-up" bar.ts_ms)
            ok (intent ∷ [], record { in_position = true; held_qty = some (some qty) }))
          else if not is_above && slots.in_position
          then (do
            qty ← held slots
            intent ← market_order p.symbol sell qty (number_tag "ma-cross-down" bar.ts_ms)
            ok (intent ∷ [], record { in_position = false; held_qty = some none }))
          else ok ([], slots))
      else ok ([], slots)

  unfoldable pub on_bar : MaCrossoverParams D → OnBar D (MaSlots D)
  on_bar p bar state =
      let slots = state.custom in
      let closes = push_close p.slow_period bar.close slots.closes in
      if not (str_eq bar.symbol p.symbol) || is_nonpos bar.close
      then ok ([], state)
      else if ltb (length closes) p.slow_period
      then ok ([], record state { custom = record slots { closes = closes } })
      else do
        let is_above = is_above_of p closes
        (intents, position) ← ma_trade p bar slots.was_above is_above slots.position
        let after : MaSlots D = record {
          closes = closes;
          was_above = some is_above;
          position = position;
        }
        ok (intents, record state { custom = after })
