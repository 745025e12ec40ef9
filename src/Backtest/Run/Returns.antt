-- ===== src/Backtest/Run/Returns.antt =====
-- apps/ai-engine/app/backtest/engine.py: the replay of any strategy.
use xbottrader.Backtest.Engine.{
  Totals, BacktestResult, new_totals, equity_at, summary, book_intents, replay, run_backtest,
}
use xbottrader.Exchange.Paper.{PaperConfig, Paper, paper_adapter, update_mark}
use xbottrader.Exchange.Base.{Draws}
use xbottrader.Strategy.Runs.{Log, run}
use xbottrader.Strategy.Base.{Bar, StrategyState, OnBar}
use xbottrader.Decimal.{Decimal}
use xbottrader.Prelude.{length, ok, bind-ok, ℕ, suc, ◌≡◌, refl, ap, none, List, [], ◌∷◌}

module _ {D C : Type 0} ⦃d : Decimal D⦄ (draws : Draws) (on_bar : OnBar D C) where
  replay-returns :
      (bars : List (Bar D)) (adapter : Paper D) (s : StrategyState C) (t : Totals D)
      (out : Log (Bar D) D × StrategyState C)
      → run on_bar bars s ≡ ok out
      → (r : List (ℕ × D) × Totals D) × (replay draws on_bar bars adapter s t ≡ ok r)
        × (length r.0 ≡ length bars)
  unfolding run replay
  replay-returns [] adapter s t out h = (([], t), refl, refl)
  replay-returns (bar ∷ bars) adapter s t out h =
      let (one, e, h') = bind-ok (on_bar bar s) _ out h in
      let (rest, e', h'') = bind-ok (run on_bar bars one.1) _ out h' in
      let next = book_intents draws one.0 (update_mark draws bar.symbol bar.close adapter).1 t in
      let (r, e'', size) = replay-returns bars next.0 one.1 next.1 rest e' in
      (((bar.ts_ms, equity_at next.1 bar.close) ∷ r.0, r.1), rw (e, e'') refl, ap suc size)

  pub run_backtest-returns :
      (config : PaperConfig) (bars : List (Bar D)) (slots : C) (cash : D)
      (out : Log (Bar D) D × StrategyState C)
      → run on_bar bars (record { last_action_ts_ms = none; custom = slots }) ≡ ok out
      → (r : BacktestResult D) × (run_backtest draws on_bar config bars slots cash ≡ ok r)
        × (r.bars ≡ length bars)
        × (length r.equity_curve ≡ length bars)
  unfolding run_backtest summary
  run_backtest-returns config bars slots cash out h =
      let (r, e, size) =
        replay-returns bars (paper_adapter "paper" config none)
          (record { last_action_ts_ms = none; custom = slots }) (new_totals cash) out h in
      (summary bars cash r.0 r.1, rw e refl, refl, size)
