-- ===== src/Strategy/RuleEngine/Engine/Tests.antt =====
-- Runs of the rule engine, and its theorems at concrete inputs.
use xbottrader.Prelude.{
  last_n, value_error, invalid_operation, Result, raised, ok, ℕ, ◌≡◌, refl, Bool, true, none, some,
  List, [], ◌∷◌, arith,
}
use xbottrader.Decimal.Whole.{ℤ, pos, whole, ℤ-HasSigns}
use xbottrader.Fixtures.{bar_at, fresh}
use xbottrader.Strategy.Base.{
  buy, market, Bar, number_tag, OrderIntent, StrategyState, market_intent, market_order,
}
use xbottrader.Strategy.Runs.{Log, run}
use xbottrader.Strategy.Window.{push_close}
use xbottrader.Strategy.RuleEngine.Config.{
  sma, IndicatorDef, lt_op, crossover, comparison, RuleEngineParams, referenced_names, max_window,
  action_init, rule_engine_params,
}
use xbottrader.Strategy.RuleEngine.Indicators.{get_value, sma_value, compute, indicator_values}
use xbottrader.Strategy.RuleEngine.Conditions.{operand, eval_comparison, eval}
use xbottrader.Strategy.RuleEngine.Conditions.Truth.{AreNumbers}
use xbottrader.Strategy.RuleEngine.Engine.{ByRule, RuleSlots, fire, visit, visit_from, on_bar}
use xbottrader.Strategy.RuleEngine.Engine.Outcomes.{Outcomes}
use xbottrader.Strategy.RuleEngine.Engine.Edges.{rule_engine_on_bar-Outcomes}
use xbottrader.Strategy.RuleEngine.Engine.Parity.{compute-last_n, closes_of, rule_engine_converges}

-- buy 100 when the price rises above its average over two bars, at most once a minute
abbrev params : RuleEngineParams ℤ
params = record {
  symbol = "BTC/USDT";
  indicators = record { name = "avg"; fn = sma; period = 2; constant = pos 0 } ∷ [];
  rules =
      record {
        when = comparison crossover "price" "avg";
        action = record { side = buy; type = market; quote = pos 100; limit_offset_pct = none };
        cooldown_minutes = 1;
      }
      ∷ [];
}

abbrev empty : RuleSlots ℤ
empty = record { closes = []; prev_ind = []; rule_truth = λ idx. none; rule_fire_ts = λ idx. none }

abbrev bars : List (Bar ℤ)
bars =
    bar_at 0 20
    ∷ bar_at 1 10
    ∷ bar_at 2 20
    ∷ bar_at 3 10
    ∷ bar_at 4 20
    ∷ bar_at 5 10
    ∷ bar_at 60002 20
    ∷ []

abbrev or_nothing :
    StrategyState (RuleSlots ℤ)
    → Result (Log (Bar ℤ) ℤ × StrategyState (RuleSlots ℤ))
    → Log (Bar ℤ) ℤ × StrategyState (RuleSlots ℤ)
or_nothing s (ok out) = out
or_nothing s (raised e) = ([], s)

abbrev log_of : Result (Log (Bar ℤ) ℤ × StrategyState (RuleSlots ℤ)) → Log (Bar ℤ) ℤ
log_of (ok (log, t)) = log
log_of (raised e) = []

-- the second of the three rises is in the cooldown
two_fires :
    log_of (run (on_bar params) bars (fresh empty))
    ≡ (bar_at 2 20, market_intent "BTC/USDT" buy (pos 5) (number_tag "rule" 2))
      ∷ (bar_at 60002 20, market_intent "BTC/USDT" buy (pos 5) (number_tag "rule" 60002))
      ∷ []
unfolding run on_bar max_window push_close indicator_values eval eval_comparison market_order
    sma_value
two_fires = refl

unknown_name_refused :
    rule_engine_params (record params { indicators = [] })
    ≡ raised (value_error "rule references unknown indicator")
unfolding rule_engine_params referenced_names
unknown_name_refused = refl

params_are_valid : rule_engine_params params ≡ ok params
unfolding rule_engine_params referenced_names
params_are_valid = refl

abbrev OutcomeOfFirst : Type 0
OutcomeOfFirst =
    let cur =
      indicator_values params.indicators (push_close (max_window params.indicators) (pos 20) []) in
    (os : List (OrderIntent ℤ)) × (truth : ByRule Bool) × (fired : ByRule ℕ) × (on_bar params
        (bar_at 0 20) (fresh empty)
      ≡ ok (
        os,
        fresh (record {
          closes = push_close (max_window params.indicators) (pos 20) [];
          prev_ind = cur;
          rule_truth = truth;
          rule_fire_ts = fired;
        }),
      ))
    × Outcomes cur [] 0 params.rules (bar_at 0 20) ((λ idx. none), (λ idx. none)) os (truth, fired)

rule_engine_on_bar-Outcomes_example : OutcomeOfFirst
unfolding action_init AreNumbers operand get_value indicator_values sma_value max_window push_close
rule_engine_on_bar-Outcomes_example =
    rule_engine_on_bar-Outcomes ℤ-HasSigns params (refl, tt) (bar_at 0 20) (fresh empty) refl refl
      ((refl, tt, tt, tt), tt)

compute-last_n_example :
    let avg : IndicatorDef ℤ = record { name = "avg"; fn = sma; period = 2; constant = pos 0 } in
    compute avg (last_n 2 (pos 1 ∷ pos 2 ∷ pos 3 ∷ [])) ≡ compute avg (pos 1 ∷ pos 2 ∷ pos 3 ∷ [])
compute-last_n_example =
    compute-last_n (record { name = "avg"; fn = sma; period = 2; constant = pos 0 }) 2
      (pos 1 ∷ pos 2 ∷ pos 3 ∷ []) (omega arith)

abbrev avg : IndicatorDef ℤ
avg = record { name = "avg"; fn = sma; period = 2; constant = pos 0 }

abbrev late : StrategyState (RuleSlots ℤ)
late = fresh (record empty { closes = pos 7 ∷ pos 8 ∷ [] })

-- the run, which returns
abbrev ran : StrategyState (RuleSlots ℤ) → Log (Bar ℤ) ℤ × StrategyState (RuleSlots ℤ)
ran s = or_nothing s (run (on_bar params) (bar_at 0 20 ∷ bar_at 1 10 ∷ bar_at 2 20 ∷ []) s)

abbrev three : List (Bar ℤ)
three = bar_at 0 20 ∷ bar_at 1 10 ∷ bar_at 2 20 ∷ []

fresh-ran : run (on_bar params) three (fresh empty) ≡ ok (ran (fresh empty))
unfolding run on_bar visit_from visit fire max_window push_close indicator_values eval
    eval_comparison market_order sma_value
fresh-ran = refl

late-ran : run (on_bar params) three late ≡ ok (ran late)
unfolding run on_bar visit_from visit fire max_window push_close indicator_values eval
    eval_comparison market_order sma_value
late-ran = refl

rule_engine_converges_example :
    ((ran (fresh empty)).1.custom.closes
      ≡ last_n (max_window params.indicators) (closes_of params three))
    × ((ran late).1.custom.closes ≡ (ran (fresh empty)).1.custom.closes)
    × ((ran late).1.custom.prev_ind ≡ (ran (fresh empty)).1.custom.prev_ind)
unfolding max_window
rule_engine_converges_example =
    rule_engine_converges params three (fresh empty) late (ran (fresh empty)).1 (ran late).1
      (ran (fresh empty)).0 (ran late).0 fresh-ran late-ran (omega arith) (omega arith)
      (omega arith) (omega arith)

-- a rule that compares the price with a text that reads as NaN raises; here every number is one
nan_raises :
    eval ⦃d = record whole { is_nan = λ x. true }⦄
      (comparison lt_op "price" "avg")
      (("price", some (pos 1)) ∷ ("avg", some (pos 2)) ∷ [])
      []
    ≡ raised (invalid_operation "comparison involving NaN")
unfolding eval eval_comparison operand get_value
nan_raises = refl
