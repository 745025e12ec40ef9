-- ===== src/Strategy/RuleEngine/Conditions/Truth.antt =====
-- What a condition of strategies/rule_engine.py says of numbers, and when `_eval` finds it out.
use xbottrader.Prelude.{
  if◌then◌else◌, Result, ok, ◌≡◌, refl, Bool, true, false, not, ◌&&◌, ◌||◌, Option, none, some,
}
use xbottrader.Decimal.{Decimal, ◌⩽◌, ◌⋖◌}
use xbottrader.Strategy.RuleEngine.Config.{
  Comparator, lt_op, le_op, gt_op, ge_op, eq_op, crossover, crossunder, Condition, comparison,
  negation, all_of, any_of, Conditions, nil, cons,
}
use xbottrader.Strategy.RuleEngine.Indicators.{Values}
use xbottrader.Strategy.RuleEngine.Conditions.{
  is_cross, ordered, both, cross?, level?, operand, eval_comparison, eval, eval_all, eval_any,
}

both_ok : (b rest : Bool) (r : Result Bool) → r ≡ ok rest → both (ok b) r ≡ ok (b && rest)
both_ok true rest r h = h
both_ok false rest r h = refl

either_ok :
    (b rest : Bool) (r : Result Bool) → r ≡ ok rest → (if b then ok true else r) ≡ ok (b || rest)
either_ok true rest r h = refl
either_ok false rest r h = h

module _ {D : Type 0} ⦃d : Decimal D⦄ where
  -- A comparison is true of operands that are all known and stand in its order.
  abbrev pub compares : Comparator → Option D → Option D → Option D → Option D → Bool
  compares lt_op (some l) (some r) lp rp = l ⋖ r
  compares le_op (some l) (some r) lp rp = l ⩽ r
  compares gt_op (some l) (some r) lp rp = r ⋖ l
  compares ge_op (some l) (some r) lp rp = r ⩽ l
  compares eq_op (some l) (some r) lp rp = d.eq l r
  compares crossover (some l) (some r) (some lp) (some rp) = lp ⩽ rp && r ⋖ l
  compares crossunder (some l) (some r) (some lp) (some rp) = rp ⩽ lp && l ⋖ r
  compares op l r lp rp = false

  unfoldable mutual
    pub is_true : Condition → Values D → Values D → Bool
    is_true (comparison op left right) cur prev =
        compares op (operand left cur) (operand right cur) (operand left prev) (operand right prev)
    is_true (negation c) cur prev = not (is_true c cur prev)
    is_true (all_of cs) cur prev = are_all_true cs cur prev
    is_true (any_of cs) cur prev = is_any_true cs cur prev

    pub are_all_true : Conditions → Values D → Values D → Bool
    are_all_true nil cur prev = true
    are_all_true (cons c cs) cur prev = is_true c cur prev && are_all_true cs cur prev

    pub is_any_true : Conditions → Values D → Values D → Bool
    is_any_true nil cur prev = false
    is_any_true (cons c cs) cur prev = is_true c cur prev || is_any_true cs cur prev

  -- an operand is not known yet or no NaN
  abbrev pub IsNumber : Option D → Type 0
  IsNumber none = Unit
  IsNumber (some x) = d.is_nan x ≡ false

  -- No operand of the condition is NaN, neither now nor on the bar before.
  unfoldable mutual
    pub AreNumbers : Condition → Values D → Values D → Type 0
    AreNumbers (comparison op left right) cur prev =
        IsNumber (operand left cur)
        × IsNumber (operand right cur)
        × IsNumber (operand left prev)
        × IsNumber (operand right prev)
    AreNumbers (negation c) cur prev = AreNumbers c cur prev
    AreNumbers (all_of cs) cur prev = AreAllNumbers cs cur prev
    AreNumbers (any_of cs) cur prev = AreAllNumbers cs cur prev

    pub AreAllNumbers : Conditions → Values D → Values D → Type 0
    AreAllNumbers nil cur prev = Unit
    AreAllNumbers (cons c cs) cur prev = AreNumbers c cur prev × AreAllNumbers cs cur prev

  ordered-number :
      (l r : D) (test : Bool) → d.is_nan l ≡ false → d.is_nan r ≡ false → ordered l r test ≡ ok test
  ordered-number l r test h k = rw (h, k) refl

  both-number :
      (l r l' r' : D) (first second : Bool)
      → d.is_nan l ≡ false
      → d.is_nan r ≡ false
      → d.is_nan l' ≡ false
      → d.is_nan r' ≡ false
      → both (ordered l r first) (ordered l' r' second) ≡ ok (first && second)
  both-number l r l' r' true second h k h' k' = rw (h, k) (ordered-number l' r' second h' k')
  both-number l r l' r' false second h k h' k' = rw (h, k) refl

  abbrev compared : Comparator → Option D → Option D → Option D → Option D → Result Bool
  compared op l r lp rp = if is_cross op then cross? op l r lp rp else level? op l r

  compares-number :
      (op : Comparator) (l r lp rp : Option D)
      → IsNumber l
      → IsNumber r
      → IsNumber lp
      → IsNumber rp
      → compared op l r lp rp ≡ ok (compares op l r lp rp)
  compares-number lt_op (some l) (some r) lp rp h k h' k' = ordered-number l r (l ⋖ r) h k
  compares-number lt_op none r lp rp h k h' k' = refl
  compares-number lt_op (some l) none lp rp h k h' k' = refl
  compares-number le_op (some l) (some r) lp rp h k h' k' = ordered-number l r (l ⩽ r) h k
  compares-number le_op none r lp rp h k h' k' = refl
  compares-number le_op (some l) none lp rp h k h' k' = refl
  compares-number gt_op (some l) (some r) lp rp h k h' k' = ordered-number l r (r ⋖ l) h k
  compares-number gt_op none r lp rp h k h' k' = refl
  compares-number gt_op (some l) none lp rp h k h' k' = refl
  compares-number ge_op (some l) (some r) lp rp h k h' k' = ordered-number l r (r ⩽ l) h k
  compares-number ge_op none r lp rp h k h' k' = refl
  compares-number ge_op (some l) none lp rp h k h' k' = refl
  compares-number eq_op (some l) (some r) lp rp h k h' k' = refl
  compares-number eq_op none r lp rp h k h' k' = refl
  compares-number eq_op (some l) none lp rp h k h' k' = refl
  compares-number crossover (some l) (some r) (some p) (some q) h k h' k' =
      both-number p q l r (p ⩽ q) (r ⋖ l) h' k' h k
  compares-number crossover none r lp rp h k h' k' = refl
  compares-number crossover (some l) none lp rp h k h' k' = refl
  compares-number crossover (some l) (some r) none rp h k h' k' = refl
  compares-number crossover (some l) (some r) (some p) none h k h' k' = refl
  compares-number crossunder (some l) (some r) (some p) (some q) h k h' k' =
      both-number p q l r (q ⩽ p) (l ⋖ r) h' k' h k
  compares-number crossunder none r lp rp h k h' k' = refl
  compares-number crossunder (some l) none lp rp h k h' k' = refl
  compares-number crossunder (some l) (some r) none rp h k h' k' = refl
  compares-number crossunder (some l) (some r) (some p) none h k h' k' = refl

  -- Of numbers `_eval` returns the truth of the condition.
  mutual
    unfolding eval eval_comparison is_true AreNumbers

    pub eval-is_true :
        (c : Condition) (cur prev : Values D)
        → AreNumbers c cur prev
        → eval c cur prev ≡ ok (is_true c cur prev)
    eval-is_true (comparison op left right) cur prev h =
        compares-number op (operand left cur) (operand right cur) (operand left prev)
          (operand right prev) h.0 h.1 h.2 h.3
    eval-is_true (negation c) cur prev h = rw (eval-is_true c cur prev h) refl
    eval-is_true (all_of cs) cur prev h = eval_all-are_all_true cs cur prev h
    eval-is_true (any_of cs) cur prev h = eval_any-is_any_true cs cur prev h

    eval_all-are_all_true :
        (cs : Conditions) (cur prev : Values D)
        → AreAllNumbers cs cur prev
        → eval_all cs cur prev ≡ ok (are_all_true cs cur prev)
    eval_all-are_all_true nil cur prev h = refl
    eval_all-are_all_true (cons c cs) cur prev h =
        let rest = eval_all-are_all_true cs cur prev h.1 in
        rw (eval-is_true c cur prev h.0) (both_ok (is_true c cur prev) _ _ rest)

    eval_any-is_any_true :
        (cs : Conditions) (cur prev : Values D)
        → AreAllNumbers cs cur prev
        → eval_any cs cur prev ≡ ok (is_any_true cs cur prev)
    eval_any-is_any_true nil cur prev h = refl
    eval_any-is_any_true (cons c cs) cur prev h =
        let rest = eval_any-is_any_true cs cur prev h.1 in
        rw (eval-is_true c cur prev h.0) (either_ok (is_true c cur prev) _ _ rest)
