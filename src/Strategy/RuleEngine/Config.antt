-- ===== src/Strategy/RuleEngine/Config.antt =====
-- The configuration of strategies/rule_engine.py and its `__post_init__` checks. The texts that the
-- checks restrict to a few values are data types, so that their checks are made by the types.
use xbottrader.Prelude.{
  ltb, if◌then◌else◌, is_none, is_empty, value_error, Result, ok, raise_if, ◌>>◌, ℕ, ◌+◌, String,
  Bool, true, false, not, ◌&&◌, ◌||◌, Option, List, [], ◌∷◌, ◌++◌, str_eq,
}
use xbottrader.Decimal.{Decimal, is_nonpos}
use xbottrader.Strategy.Base.{Side, OrderType, is_limit}

-- `_INDICATOR_FNS`
pub data IndicatorFn : Type 0 where
  price value sma rsi : IndicatorFn

pub record IndicatorDef (D : Type 0) : Type 0 where
  pub name : String
  pub fn : IndicatorFn
  pub period : ℕ
  pub constant : D

-- `_COMPARATORS`
pub data Comparator : Type 0 where
  lt_op le_op gt_op ge_op eq_op crossover crossunder : Comparator

-- `Compare` and `BoolOp`; a `not` has exactly one term, as `_parse_condition` checks.
mutual
  pub data Condition : Type 0 where
    comparison : Comparator → String → String → Condition
    negation : Condition → Condition
    all_of any_of : Conditions → Condition

  pub data Conditions : Type 0 where
    nil : Conditions
    cons : Condition → Conditions → Conditions

pub record Action (D : Type 0) : Type 0 where
  pub side : Side
  pub type : OrderType
  pub quote : D
  pub limit_offset_pct : Option D

pub record Rule (D : Type 0) : Type 0 where
  pub when : Condition
  pub action : Action D
  pub cooldown_minutes : ℕ

pub record RuleEngineParams (D : Type 0) : Type 0 where
  pub symbol : String
  pub indicators : List (IndicatorDef D)
  pub rules : List (Rule D)

abbrev pub is_windowed : IndicatorFn → Bool
is_windowed price = false
is_windowed value = false
is_windowed sma = true
is_windowed rsi = true

-- `IndicatorDef.window`, for the kind and the period
abbrev pub window_of : IndicatorFn → ℕ → ℕ
window_of rsi period = period + 1
window_of sma period = period
window_of price period = 1
window_of value period = 1

abbrev pub contains_name : String → List String → Bool
contains_name name [] = false
contains_name name (n ∷ ns) = str_eq n name || contains_name name ns

-- `len(set(names)) != len(names)`
abbrev pub has_duplicates : List String → Bool
has_duplicates [] = false
has_duplicates (n ∷ ns) = contains_name n ns || has_duplicates ns

-- `_referenced_names`, as a list
unfoldable mutual
  pub referenced_names : Condition → List String
  referenced_names (comparison op left right) = left ∷ right ∷ []
  referenced_names (negation c) = referenced_names c
  referenced_names (all_of cs) = referenced_of cs
  referenced_names (any_of cs) = referenced_of cs

  pub referenced_of : Conditions → List String
  referenced_of nil = []
  referenced_of (cons c cs) = referenced_names c ++ referenced_of cs

-- the loop over the tokens of one rule
unfoldable pub check_tokens : (String → Bool) → List String → List String → Result (Unit {0})
check_tokens is_number known [] = ok tt
check_tokens is_number known (token ∷ tokens) = do
  raise_if (not (contains_name token known) && not (is_number token))
      (value_error "rule references unknown indicator")
  check_tokens is_number known tokens

module _ {D : Type 0} where
  -- `_is_literal`
  abbrev pub is_literal : Decimal D → String → Bool
  is_literal d token = not (is_none (d.parse token))

  abbrev pub window : IndicatorDef D → ℕ
  window ind = window_of ind.fn ind.period

  abbrev pub names_of : List (IndicatorDef D) → List String
  names_of [] = []
  names_of (ind ∷ inds) = ind.name ∷ names_of inds

  abbrev pub max_from : ℕ → List (IndicatorDef D) → ℕ
  max_from best [] = best
  max_from best (ind ∷ inds) = max_from (if ltb best (window ind) then window ind else best) inds

  -- `max((i.window for i in self.indicators), default=1)`
  unfoldable pub max_window : List (IndicatorDef D) → ℕ
  max_window [] = 1
  max_window (ind ∷ inds) = max_from (window ind) inds

module _ {D : Type 0} ⦃d : Decimal D⦄ where
  -- `IndicatorDef.__post_init__`
  unfoldable pub indicator_def : IndicatorDef D → Result (IndicatorDef D)
  indicator_def ind = do
    raise_if (str_eq ind.name "") (value_error "indicator name is required")
    raise_if (is_windowed ind.fn && ltb ind.period 2) (value_error "requires period >= 2")
    ok ind

  -- `Action.__post_init__`
  unfoldable pub action_init : Action D → Result (Action D)
  action_init a = do
    raise_if (is_nonpos a.quote) (value_error "action quote must be positive")
    raise_if (is_limit a.type && is_none a.limit_offset_pct)
        (value_error "limit action requires limit_offset_pct")
    ok a

  unfoldable pub check_rules : List String → List (Rule D) → Result (Unit {0})
  unfolding check_tokens
  check_rules known [] = ok tt
  check_rules known (rule ∷ rules) = do
    check_tokens (is_literal d) known (referenced_names rule.when)
    check_rules known rules

  -- `RuleEngineParams.__post_init__`
  unfoldable pub rule_engine_params : RuleEngineParams D → Result (RuleEngineParams D)
  unfolding check_rules
  rule_engine_params p =
      let names = names_of p.indicators in
      do
        raise_if (str_eq p.symbol "") (value_error "symbol is required")
        raise_if (is_empty p.rules) (value_error "at least one rule is required")
        raise_if (has_duplicates names) (value_error "indicator names must be unique")
        raise_if (contains_name "price" names) (value_error "indicator name is reserved")
        check_rules ("price" ∷ names) p.rules
        ok p
