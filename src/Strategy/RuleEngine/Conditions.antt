-- ===== src/Strategy/RuleEngine/Conditions.antt =====
-- `_operand` and `_eval` of strategies/rule_engine.py.
pub mod Truth
use xbottrader.Prelude.{
  if◌then◌else◌, Result, raised, ok, invalid_operation, ◌>>=◌, String, ◌≡◌, refl, Bool, true, false,
  not, ◌||◌, Option, none, some, arith,
}
use xbottrader.Decimal.{Decimal, ◌⩽◌, ◌⋖◌}
use xbottrader.Strategy.RuleEngine.Config.{
  Comparator, lt_op, le_op, gt_op, ge_op, eq_op, crossover, crossunder, Condition, comparison,
  negation, all_of, any_of, Conditions, nil, cons,
}
use xbottrader.Strategy.RuleEngine.Indicators.{Values, get_value}

abbrev pub is_cross : Comparator → Bool
is_cross crossover = true
is_cross crossunder = true
is_cross _ = false

-- `a and b` of two tests
abbrev pub both : Result Bool → Result Bool → Result Bool
both first second = do holds ← first; if holds then second else ok false

module _ {D : Type 0} ⦃d : Decimal D⦄ where
  unfoldable pub operand : String → Values D → Option D
  unfolding get_value
  operand token vals = elim (d.parse token) [ none ↦ get_value token vals | some x ↦ some x ]

  -- An order test of two numbers; with a NaN it raises `InvalidOperation`. `==` does so with a signaling NaN alone,
  -- which is left out.
  abbrev pub ordered : D → D → Bool → Result Bool
  ordered l r test =
      if d.is_nan l || d.is_nan r
      then raised (invalid_operation "comparison involving NaN")
      else ok test

  -- the comparisons of the current values, and the two that look at the previous ones
  abbrev pub level : Comparator → D → D → Result Bool
  level lt_op l r = ordered l r (l ⋖ r)
  level le_op l r = ordered l r (l ⩽ r)
  level gt_op l r = ordered l r (r ⋖ l)
  level ge_op l r = ordered l r (r ⩽ l)
  level eq_op l r = ok (d.eq l r)
  level crossover l r = ok false
  level crossunder l r = ok false

  abbrev pub cross : Comparator → D → D → D → D → Result Bool
  cross crossover lc rc lp rp = both (ordered lp rp (lp ⩽ rp)) (ordered lc rc (rc ⋖ lc))
  cross crossunder lc rc lp rp = both (ordered lp rp (rp ⩽ lp)) (ordered lc rc (lc ⋖ rc))
  cross _ lc rc lp rp = ok false

  abbrev pub level? : Comparator → Option D → Option D → Result Bool
  level? op (some l) (some r) = level op l r
  level? op _ _ = ok false

  abbrev pub cross? : Comparator → Option D → Option D → Option D → Option D → Result Bool
  cross? op (some lc) (some rc) (some lp) (some rp) = cross op lc rc lp rp
  cross? op _ _ _ _ = ok false

  unfoldable pub eval_comparison : Comparator → String → String → Values D → Values D → Result Bool
  unfolding operand
  eval_comparison op left right cur prev =
      if is_cross op
      then cross? op (operand left cur) (operand right cur) (operand left prev) (operand right prev)
      else level? op (operand left cur) (operand right cur)

  -- `_eval`
  unfoldable mutual
    pub eval : Condition → Values D → Values D → Result Bool
    eval (comparison op left right) cur prev = eval_comparison op left right cur prev
    eval (negation c) cur prev = do holds ← eval c cur prev; ok (not holds)
    eval (all_of cs) cur prev = eval_all cs cur prev
    eval (any_of cs) cur prev = eval_any cs cur prev

    pub eval_all : Conditions → Values D → Values D → Result Bool
    eval_all nil cur prev = ok true
    eval_all (cons c cs) cur prev = both (eval c cur prev) (eval_all cs cur prev)

    pub eval_any : Conditions → Values D → Values D → Result Bool
    eval_any nil cur prev = ok false
    eval_any (cons c cs) cur prev =
        let rest = eval_any cs cur prev in
        (do holds ← eval c cur prev; if holds then ok true else rest)

  -- A crossunder is the mirror of a crossover: swapping the operands swaps the two.
  pub crossunder_mirror :
      (left right : String) (cur prev : Values D)
      → eval (comparison crossunder left right) cur prev
        ≡ eval (comparison crossover right left) cur prev
  unfolding eval eval_comparison
  crossunder_mirror left right cur prev = ground arith
