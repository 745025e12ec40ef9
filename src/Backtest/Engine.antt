-- ===== src/Backtest/Engine.antt =====
-- apps/ai-engine/app/backtest/engine.py: the replay of a strategy over historical bars on a paper
-- exchange. The strategy is a parameter here; Run builds it from a configuration.
pub mod Parity
mod Tests
use xbottrader.Prelude.{
  ◌==◌, if◌then◌else◌, length, Result, ok, ◌>>=◌, ℕ, ◌+◌, String, ◌&&◌, Option, none, some, List,
  [], ◌∷◌,
}
use xbottrader.Decimal.{Decimal, ◌⊕◌, ◌⊖◌, ◌⊗◌, ◌⊘◌, ◌⋖◌, zero_of, is_pos}
use xbottrader.Strategy.Base.{Bar, OrderIntent, StrategyState, is_buy, OnBar}
use xbottrader.Exchange.Base.{FillEvent, Draws}
use xbottrader.Exchange.Paper.{PaperConfig, Paper, paper_adapter, update_mark, place_order}

-- the local variables of `run_backtest` that a fill changes
pub record Totals (D : Type 0) : Type 0 where
  pub cash : D
  pub position : D
  pub avg_cost : D
  pub num_trades : ℕ
  pub wins : ℕ
  pub sells : ℕ

pub record BacktestResult (D : Type 0) : Type 0 where
  pub symbol : String
  pub bars : ℕ
  pub starting_cash : D
  pub final_equity : D
  pub total_return_pct : D
  pub max_drawdown_pct : D
  pub num_trades : ℕ
  pub win_rate : D
  pub equity_curve : List (ℕ × D)

module _ {D : Type 0} ⦃d : Decimal D⦄ where
  abbrev pub new_totals : D → Totals D
  new_totals starting_cash = record {
    cash = starting_cash;
    position = zero_of D;
    avg_cost = zero_of D;
    num_trades = 0;
    wins = 0;
    sells = 0;
  }

  unfoldable pub book_fill : Totals D → FillEvent D → Totals D
  book_fill t fill =
      let notional = fill.quantity ⊗ fill.price in
      let new_pos = t.position ⊕ fill.quantity in
      let realized = (fill.price ⊖ t.avg_cost) ⊗ fill.quantity ⊖ fill.fee in
      if is_buy fill.side
      then record t {
        num_trades = t.num_trades + 1;
        avg_cost =
            if is_pos new_pos then (t.avg_cost ⊗ t.position ⊕ notional) ⊘ new_pos else zero_of D;
        position = new_pos;
        cash = t.cash ⊖ (notional ⊕ fill.fee);
      }
      else record t {
        num_trades = t.num_trades + 1;
        sells = t.sells + 1;
        wins = t.wins + (if is_pos realized then 1 else 0);
        position = t.position ⊖ fill.quantity;
        cash = t.cash ⊕ (notional ⊖ fill.fee);
      }

  -- `for fill in result.immediate_fills: …`
  unfoldable pub book_fills : Totals D → List (FillEvent D) → Totals D
  unfolding book_fill
  book_fills t [] = t
  book_fills t (fill ∷ fills) = book_fills (book_fill t fill) fills

  abbrev pub equity_at : Totals D → D → D
  equity_at t price = t.cash ⊕ t.position ⊗ price

  -- the loop of `_max_drawdown_pct`
  unfoldable pub drawdown_loop : Option D → D → List (ℕ × D) → D
  drawdown_loop peak max_dd [] = max_dd
  drawdown_loop peak max_dd ((ts, equity) ∷ curve) =
      let top : D = elim peak [ none ↦ equity | some p ↦ if p ⋖ equity then equity else p ] in
      let dd = (top ⊖ equity) ⊘ top ⊗ d.of_ℕ 100 in
      let deeper = is_pos top && max_dd ⋖ dd in
      drawdown_loop (some top) (if deeper then dd else max_dd) curve

  -- `_max_drawdown_pct`
  unfoldable pub max_drawdown_pct : List (ℕ × D) → D
  unfolding drawdown_loop
  max_drawdown_pct curve = drawdown_loop none (zero_of D) curve

  -- `equity_curve[-1][1] if equity_curve else starting_cash`
  abbrev pub last_equity : D → List (ℕ × D) → D
  last_equity starting_cash [] = starting_cash
  last_equity starting_cash ((ts, equity) ∷ curve) = last_equity equity curve

  abbrev pub first_symbol : List (Bar D) → String
  first_symbol [] = ""
  first_symbol (bar ∷ bars) = bar.symbol

module _ {D : Type 0} ⦃d : Decimal D⦄ where
  -- the summary of the totals at the end of the replay
  unfoldable pub summary : List (Bar D) → D → List (ℕ × D) → Totals D → BacktestResult D
  unfolding max_drawdown_pct
  summary bars starting_cash curve t =
      let final_equity = last_equity starting_cash curve in
      record {
        symbol = first_symbol bars;
        bars = length bars;
        starting_cash = starting_cash;
        final_equity = final_equity;
        total_return_pct =
            if is_pos starting_cash
            then (final_equity ⊘ starting_cash ⊖ d.of_ℕ 1) ⊗ d.of_ℕ 100
            else zero_of D;
        max_drawdown_pct = max_drawdown_pct curve;
        num_trades = t.num_trades;
        win_rate = if t.sells == 0 then zero_of D else d.of_ℕ t.wins ⊘ d.of_ℕ t.sells ⊗ d.of_ℕ 100;
        equity_curve = curve;
      }

module _ {D : Type 0} ⦃d : Decimal D⦄ (draws : Draws) where
  -- the loop over the intents of a bar
  unfoldable pub book_intents : List (OrderIntent D) → Paper D → Totals D → Paper D × Totals D
  unfolding book_fills
  book_intents [] adapter t = (adapter, t)
  book_intents (intent ∷ intents) adapter t =
      let (result, after) = place_order draws intent adapter in
      book_intents intents after (book_fills t result.immediate_fills)

  module _ {C : Type 0} (on_bar : OnBar D C) where
    -- the loop over the bars: the equity curve, and the totals at its end
    unfoldable pub replay :
        List (Bar D) → Paper D → StrategyState C → Totals D → Result (List (ℕ × D) × Totals D)
    unfolding book_intents
    replay [] adapter state t = ok ([], t)
    replay (bar ∷ bars) adapter state t = do
      (intents, state') ← on_bar bar state
      let (adapter', t') = book_intents intents (update_mark draws bar.symbol bar.close adapter).1 t
      (curve, final) ← replay bars adapter' state' t'
      ok ((bar.ts_ms, equity_at t' bar.close) ∷ curve, final)

    unfoldable pub run_backtest : PaperConfig → List (Bar D) → C → D → Result (BacktestResult D)
    unfolding replay summary
    run_backtest config bars slots starting_cash = do
      (curve, t) ←
          replay bars (paper_adapter "paper" config none)
            (record { last_action_ts_ms = none; custom = slots }) (new_totals starting_cash)
      ok (summary bars starting_cash curve t)
