-- ===== src/Strategy/RuleEngine/Engine.antt =====
-- `RuleEngineStrategy` of strategies/rule_engine.py: one bar, rule by rule.
pub mod Outcomes
pub mod Edges
pub mod Parity
mod Tests
use xbottrader.Prelude.{
  ltb, ◌==◌, if◌then◌else◌, or_default, assertion_error, Result, raised, ok, ◌>>=◌, ◌>>◌, ℕ, ◌+◌,
  ◌*◌, String, Bool, false, not, ◌&&◌, ◌||◌, Option, none, some, List, [], ◌∷◌, ◌++◌, str_eq,
}
use xbottrader.Decimal.{Decimal, ◌⊕◌, ◌⊗◌, ◌⊘◌, is_nonpos}
use xbottrader.Strategy.Base.{
  Side, Bar, number_tag, OrderIntent, is_limit, market_order, limit_order, OnBar,
}
use xbottrader.Strategy.Window.{push_close}
use xbottrader.Strategy.RuleEngine.Config.{Rule, RuleEngineParams, max_window}
use xbottrader.Strategy.RuleEngine.Indicators.{Values, indicator_values}
use xbottrader.Strategy.RuleEngine.Conditions.{eval}

-- a dict keyed by the index of a rule
abbrev pub ByRule : Type 0 → Type 0
ByRule A = ℕ → Option A

module _ {A : Type 0} where
  unfoldable pub put : ℕ → A → ByRule A → ByRule A
  put idx a dict j = if j == idx then some a else dict j

-- `rule_truth` and `rule_fire_ts`
abbrev pub Marks : Type 0
Marks = ByRule Bool × ByRule ℕ

-- the keys of `state.custom`
pub record RuleSlots (D : Type 0) : Type 0 where
  pub closes : List D
  pub prev_ind : Values D
  pub rule_truth : ByRule Bool
  pub rule_fire_ts : ByRule ℕ

-- `prior is not None and ts - prior < cooldown * 60_000`, tested where the cooldown is positive
abbrev pub is_cooling : ℕ → Option ℕ → ℕ → Bool
is_cooling cooldown none ts = false
is_cooling cooldown (some prior) ts = ltb 0 cooldown && ltb ts (prior + cooldown * 60000)

module _ {D : Type 0} ⦃d : Decimal D⦄ where
  -- the price of a limit action; `assert` guards the offset
  abbrev pub limit_price_of : D → Option D → Result D
  limit_price_of close none = raised (assertion_error "limit_offset_pct is not None")
  limit_price_of close (some offset) = ok (close ⊗ (d.of_ℕ 1 ⊕ offset ⊘ d.of_ℕ 100))

  -- the two ways in which `_intent` builds an order; a limit price that is not positive gives none
  unfoldable pub limit_action : String → Side → D → D → ℕ → Result (Option (OrderIntent D))
  limit_action symbol side quote target ts = if is_nonpos target then ok none else (do
    intent ← limit_order symbol side (quote ⊘ target) target (number_tag "rule-limit" ts)
    ok (some intent))

  unfoldable pub market_action : String → Side → D → D → ℕ → Result (Option (OrderIntent D))
  market_action symbol side quote close ts = do
    intent ← market_order symbol side (quote ⊘ close) (number_tag "rule" ts)
    ok (some intent)

  -- `_intent`
  unfoldable pub intent_of : String → Rule D → Bar D → Result (Option (OrderIntent D))
  unfolding limit_action market_action
  intent_of symbol rule bar =
      let a = rule.action in
      if is_limit a.type
      then (do
        target ← limit_price_of bar.close a.limit_offset_pct
        limit_action symbol a.side a.quote target bar.ts_ms)
      else market_action symbol a.side a.quote bar.close bar.ts_ms

  unfoldable pub fire : String → ℕ → Rule D → Bar D → Marks → Result (List (OrderIntent D) × Marks)
  unfolding intent_of put
  fire symbol idx rule bar (truth, fired) = do
    made ← intent_of symbol rule bar
    elim made [
      | none ↦ ok ([], (truth, fired))
      | some intent ↦ ok (intent ∷ [], (truth, put idx bar.ts_ms fired))
    ]

  -- the body of the loop over the rules
  unfoldable pub visit :
      String
      → Values D
      → Values D
      → ℕ
      → Rule D
      → Bar D
      → Marks
      → Result (List (OrderIntent D) × Marks)
  unfolding fire put
  visit symbol cur prev idx rule bar (truth, fired) = do
    now ← eval rule.when cur prev
    let rose = now && not (or_default false (truth idx))
    let marks : Marks = (put idx now truth, fired)
    if not rose || is_cooling rule.cooldown_minutes (fired idx) bar.ts_ms
        then ok ([], marks)
        else fire symbol idx rule bar marks

  -- `for idx, rule in enumerate(rules)`, from the index `idx`
  unfoldable pub visit_from :
      String
      → Values D
      → Values D
      → ℕ
      → List (Rule D)
      → Bar D
      → Marks
      → Result (List (OrderIntent D) × Marks)
  unfolding visit
  visit_from symbol cur prev idx [] bar marks = ok ([], marks)
  visit_from symbol cur prev idx (rule ∷ rules) bar marks = do
    (os, marks') ← visit symbol cur prev idx rule bar marks
    (more, marks'') ← visit_from symbol cur prev (idx + 1) rules bar marks'
    ok (os ++ more, marks'')

  unfoldable pub on_bar : RuleEngineParams D → OnBar D (RuleSlots D)
  unfolding visit_from
  on_bar p bar state =
      let slots = state.custom in
      let closes = push_close (max_window p.indicators) bar.close slots.closes in
      let cur = indicator_values p.indicators closes in
      if not (str_eq bar.symbol p.symbol) || is_nonpos bar.close then ok ([], state) else do
        (intents, marks) ←
            visit_from p.symbol cur slots.prev_ind 0 p.rules bar
              (slots.rule_truth, slots.rule_fire_ts)
        let after : RuleSlots D = record {
          closes = closes;
          prev_ind = cur;
          rule_truth = marks.0;
          rule_fire_ts = marks.1;
        }
        ok (intents, record state { custom = after })
