-- ===== src/Strategy/AiSignal.antt =====
-- packages/xbt-core/xbt_core/strategies/ai_signal.py. The decisions are written into the state by
-- the companion, between two bars.
pub mod Consumption
mod Tests
use xbottrader.Prelude.{
  ltb, leb, if◌then◌else◌, or_default, length, drop, value_error, Result, ok, ◌>>=◌, ◌>>◌, raise_if,
  ℕ, ◌-◌, String, not, ◌&&◌, ◌||◌, Option, none, some, List, [], ◌∷◌, ◌++◌, str_eq,
}
use xbottrader.Decimal.{Decimal, ◌⊕◌, ◌⊘◌, zero_of, is_pos, is_nonpos}
use xbottrader.Strategy.Base.{
  buy, sell, Bar, number_tag, OrderIntent, StrategyState, market_order, OnBar,
}

pub record AiSignalParams (D : Type 0) : Type 0 where
  pub symbol : String
  pub quote_amount : D
  pub decision_interval_minutes : ℕ
  pub lookback_bars : ℕ
  pub guidance : Option String
  pub model : Option String

-- The dict in the slot `SIGNAL_SLOT`; `seq` is absent where the value is no int.
pub record Signal : Type 0 where
  pub seq : Option ℕ
  pub action : String
  pub reason : String
  pub ts_ms : ℕ

-- The keys of `state.custom`: `WINDOW_SLOT`, `SIGNAL_SLOT`, `ai_consumed_seq` and `ai_held_qty`,
-- absent until they are written. A slot that holds no dict counts as absent.
pub record AiSlots (D : Type 0) : Type 0 where
  pub closes : List D
  pub signal : Option Signal
  pub consumed_seq : Option ℕ
  pub held_qty : Option D

-- the test of `seq`: an int above the last one consumed
abbrev pub fresh_seq : Option Signal → ℕ → Option (ℕ × String)
fresh_seq none consumed = none
fresh_seq (some signal) consumed = elim signal.seq [
  | none ↦ none
  | some seq ↦ if leb seq consumed then none else some (seq, signal.action)
]

module _ {D : Type 0} ⦃d : Decimal D⦄ where
  -- `AiSignalParams.__post_init__`
  unfoldable pub ai_signal_params : AiSignalParams D → Result (AiSignalParams D)
  ai_signal_params p = do
    raise_if (str_eq p.symbol "") (value_error "symbol is required")
    raise_if (is_nonpos p.quote_amount) (value_error "quote_amount must be positive")
    raise_if (ltb p.decision_interval_minutes 1)
        (value_error "decision_interval_minutes must be >= 1")
    raise_if (ltb p.lookback_bars 2) (value_error "lookback_bars must be >= 2")
    ok p

  -- `closes.append(close)`, then the surplus at the front is deleted
  unfoldable pub push_window : ℕ → D → List D → List D
  push_window size close closes =
      let longer = closes ++ close ∷ [] in
      if ltb size (length longer) then drop (length longer - size) longer else longer

  -- what follows the test of `seq`
  unfoldable pub act :
      AiSignalParams D
      → Bar D
      → ℕ
      → String
      → StrategyState (AiSlots D)
      → Result (List (OrderIntent D) × StrategyState (AiSlots D))
  act p bar seq action state =
      let slots = record state.custom { consumed_seq = some seq } in
      let held = or_default (zero_of D) state.custom.held_qty in
      if str_eq action "buy"
      then (do
        let qty = p.quote_amount ⊘ bar.close
        intent ← market_order p.symbol buy qty (number_tag "ai" seq)
        ok (
          intent ∷ [],
          record {
            last_action_ts_ms = some bar.ts_ms;
            custom = record slots { held_qty = some (held ⊕ qty) };
          },
        ))
      else if str_eq action "sell" && is_pos held
      then (do
        intent ← market_order p.symbol sell held (number_tag "ai" seq)
        ok (
          intent ∷ [],
          record {
            last_action_ts_ms = some bar.ts_ms;
            custom = record slots { held_qty = some (zero_of D) };
          },
        ))
      else ok ([], record state { custom = slots })

  -- `on_bar` once the window has been updated
  unfoldable pub consume :
      AiSignalParams D
      → Bar D
      → Option (ℕ × String)
      → StrategyState (AiSlots D)
      → Result (List (OrderIntent D) × StrategyState (AiSlots D))
  unfolding act
  consume p bar none state = ok ([], state)
  consume p bar (some (seq, action)) state = act p bar seq action state

  unfoldable pub on_bar : AiSignalParams D → OnBar D (AiSlots D)
  on_bar p bar state =
      let slots = state.custom in
      let closes = push_window p.lookback_bars bar.close slots.closes in
      let fresh = fresh_seq slots.signal (or_default 0 slots.consumed_seq) in
      if not (str_eq bar.symbol p.symbol) || is_nonpos bar.close
      then ok ([], state)
      else consume p bar fresh (record state { custom = record slots { closes = closes } })

  -- The companion may have written a decision into `SIGNAL_SLOT` before the bar arrives.
  unfoldable pub write_signal :
      Option Signal → StrategyState (AiSlots D) → StrategyState (AiSlots D)
  write_signal none state = state
  write_signal (some signal) state = record state {
    custom = record state.custom { signal = some signal };
  }

  unfoldable pub on_input :
      AiSignalParams D
      → Option Signal × Bar D
      → StrategyState (AiSlots D)
      → Result (List (OrderIntent D) × StrategyState (AiSlots D))
  on_input p (written, bar) state = on_bar p bar (write_signal written state)
