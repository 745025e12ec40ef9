-- ===== src/Strategy/RuleEngine/Engine/Outcomes.antt =====
-- What becomes of a rule of strategies/rule_engine.py on one bar.
use xbottrader.Prelude.{
  All, ok, ℕ, ◌+◌, ◌*◌, ◌≤◌, ◌<◌, ◌≡◌, ◌≢◌, ◌⊎◌, Bool, true, false, Option, none, some, List, [],
  ◌∷◌, ◌++◌,
}
use xbottrader.Decimal.{Decimal, is_pos, is_nonpos}
use xbottrader.Strategy.Base.{limit, Bar, OrderIntent}
use xbottrader.Strategy.RuleEngine.Config.{Rule, action_init}
use xbottrader.Strategy.RuleEngine.Indicators.{Values}
use xbottrader.Strategy.RuleEngine.Conditions.Truth.{is_true, AreNumbers}
use xbottrader.Strategy.RuleEngine.Engine.{put, Marks, limit_price_of}

-- The cooldown since the last fire, if any, is over.
abbrev pub Cooled : ℕ → Option ℕ → ℕ → Type 0
Cooled cooldown none ts = Unit
Cooled cooldown (some prior) ts = (cooldown ≡ 0) ⊎ (prior + cooldown * 60000 ≤ ts)

module _ {D : Type 0} ⦃d : Decimal D⦄ where
  -- What one rule does on a bar: the four ways to stay quiet, and the fire.
  pub data Outcome (idx : ℕ) (rule : Rule D) (bar : Bar D) (now : Bool) (before : Marks)
      (os : List (OrderIntent D)) (after : Marks) : Type 0 where
    unmet : now ≡ false → os ≡ [] → after.1 ≡ before.1 → Outcome idx rule bar now before os after
    still_met :
        before.0 idx ≡ some true
        → os ≡ []
        → after.1 ≡ before.1
        → Outcome idx rule bar now before os after
    cooling :
        (prior : ℕ)
        → before.1 idx ≡ some prior
        → bar.ts_ms < prior + rule.cooldown_minutes * 60000
        → os ≡ []
        → after.1 ≡ before.1
        → Outcome idx rule bar now before os after
    no_price :
        rule.action.type ≡ limit
        → (target : D) → limit_price_of bar.close rule.action.limit_offset_pct ≡ ok target
        → is_nonpos target ≡ true
        → os ≡ []
        → after.1 ≡ before.1
        → Outcome idx rule bar now before os after
    fires :
        (o : OrderIntent D)
        → os ≡ o ∷ []
        → o.side ≡ rule.action.side
        → o.type ≡ rule.action.type
        → is_pos o.quantity ≡ true
        → now ≡ true
        → before.0 idx ≢ some true
        → Cooled rule.cooldown_minutes (before.1 idx) bar.ts_ms
        → after.1 ≡ put idx bar.ts_ms before.1
        → Outcome idx rule bar now before os after

  -- The rules from an index on, each on the marks that the one before it has left.
  abbrev pub Outcomes :
      Values D
      → Values D
      → ℕ
      → List (Rule D)
      → Bar D
      → Marks
      → List (OrderIntent D)
      → Marks
      → Type 0
  Outcomes cur prev idx [] bar before os after = (os ≡ []) × (after ≡ before)
  Outcomes cur prev idx (rule ∷ rules) bar before os after =
      (mine more : List (OrderIntent D)) × (between : Marks) × (os ≡ mine ++ more)
      × (between.0 ≡ put idx (is_true rule.when cur prev) before.0)
      × Outcome idx rule bar (is_true rule.when cur prev) before mine between
      × Outcomes cur prev (idx + 1) rules bar between more after

  -- every action has passed `Action.__post_init__`
  abbrev pub HasActions : List (Rule D) → Type 0
  HasActions rules = All (λ (rule : Rule D). action_init rule.action ≡ ok rule.action) rules

  -- No condition of the rules compares a NaN, neither now nor on the bar before.
  abbrev pub AreRulesNumbers : Values D → Values D → List (Rule D) → Type 0
  AreRulesNumbers cur prev rules = All (λ (rule : Rule D). AreNumbers rule.when cur prev) rules
