-- ===== src/Config/Schema.antt =====
-- packages/xbt-core/xbt_core/strategy_config.py: the models of a strategy's configuration, each with
-- the constraints of its fields and its validators as one check. A field with a `Literal` type is a
-- data type. Where pydantic reports all errors of a model, the check raises the first one.
use Prim.Native.String.{count}
use xbottrader.Prelude.{
  ltb, leb, if◌then◌else◌, is_none, is_empty, value_error, Result, raised, ok, raise_if, ◌>>◌, ℕ,
  String, Bool, false, not, ◌&&◌, ◌||◌, Option, none, some, List, [], ◌∷◌, ◌++◌, str_eq,
}
use xbottrader.Decimal.{Decimal, is_nonpos}
use xbottrader.Strategy.Base.{Side, OrderType, is_limit}
use xbottrader.Strategy.Value.{Fields}
use xbottrader.Strategy.RuleEngine.Config.{
  IndicatorFn, is_windowed, contains_name, has_duplicates, check_tokens, is_literal,
}
use xbottrader.Strategy.RuleEngine.Parse.{is_op, is_bool_op, comparator_of}

-- the models of `DcaParams`, `GridParams`, `MaCrossoverParams`, `AiSignalParams`, `PythonParams`
pub record DcaSpec (D : Type 0) : Type 0 where
  pub symbol : String
  pub quote_amount : D
  pub interval_minutes : ℕ

pub record GridSpec (D : Type 0) : Type 0 where
  pub symbol : String
  pub lower_price : D
  pub upper_price : D
  pub grid_levels : ℕ
  pub total_quote : D

pub record MaCrossoverSpec (D : Type 0) : Type 0 where
  pub symbol : String
  pub fast_period : ℕ
  pub slow_period : ℕ
  pub position_quote : D

pub record AiSignalSpec (D : Type 0) : Type 0 where
  pub symbol : String
  pub quote_amount : D
  pub decision_interval_minutes : ℕ
  pub lookback_bars : ℕ
  pub guidance : Option String
  pub model : Option String

pub record PythonSpec (D : Type 0) : Type 0 where
  pub symbol : String
  pub strategy_key : String
  pub params : Fields D

pub record IndicatorSpec (D : Type 0) : Type 0 where
  pub name : String
  pub fn : IndicatorFn
  pub period : ℕ
  pub constant : D

-- `Condition`: the op, `left`, `right` and `terms`
mutual
  pub data ConditionSpec : Type 0 where
    condition_spec : String → Option String → Option String → OptionalTerms → ConditionSpec

  pub data OptionalTerms : Type 0 where
    unset : OptionalTerms
    given : TermSpecs → OptionalTerms

  pub data TermSpecs : Type 0 where
    no_terms : TermSpecs
    term : ConditionSpec → TermSpecs → TermSpecs

pub record ActionSpec (D : Type 0) : Type 0 where
  pub side : Side
  pub type : OrderType
  pub quote : D
  pub limit_offset_pct : Option D

pub record RuleSpec (D : Type 0) : Type 0 where
  pub when : ConditionSpec
  pub action : ActionSpec D
  pub cooldown_minutes : ℕ

pub record CustomRulesSpec (D : Type 0) : Type 0 where
  pub symbol : String
  pub indicators : List (IndicatorSpec D)
  pub rules : List (RuleSpec D)

-- `StrategyConfig`, by its `strategy_type`
pub data StrategyConfig (D : Type 0) : Type 0 where
  dca : DcaSpec D → StrategyConfig D
  grid : GridSpec D → StrategyConfig D
  ma_crossover : MaCrossoverSpec D → StrategyConfig D
  custom_rules : CustomRulesSpec D → StrategyConfig D
  ai_signal : AiSignalSpec D → StrategyConfig D
  python : PythonSpec D → StrategyConfig D

-- a text longer than `max_length`
abbrev pub is_longer : ℕ → Option String → Bool
is_longer size none = false
is_longer size (some s) = ltb size (count s)

-- the part of `Condition._shape` for a boolean operator
abbrev pub bool_shape : String → OptionalTerms → Result (Unit {0})
bool_shape op unset = raised (value_error "requires terms")
bool_shape op (given no_terms) = raised (value_error "requires terms")
bool_shape op (given (term c no_terms)) = ok tt
bool_shape op (given (term c (term c' cs))) =
    raise_if (is_op op "not") (value_error "'not' takes exactly one term")

-- `Condition._shape`
abbrev pub shape : String → Option String → Option String → OptionalTerms → Result (Unit {0})
shape op left right terms =
    if is_bool_op op
    then bool_shape op terms
    else if not (is_none (comparator_of op))
    then raise_if (is_none left || is_none right) (value_error "requires left and right")
    else raised (value_error "unknown condition op")

unfoldable mutual
  -- a model is validated after those that its fields hold
  pub check_condition : ConditionSpec → Result (Unit {0})
  check_condition (condition_spec op left right terms) =
      check_optional terms >> shape op left right terms

  pub check_optional : OptionalTerms → Result (Unit {0})
  check_optional unset = ok tt
  check_optional (given cs) = check_terms cs

  pub check_terms : TermSpecs → Result (Unit {0})
  check_terms no_terms = ok tt
  check_terms (term c cs) = check_condition c >> check_terms cs

-- `{t for t in (cond.left, cond.right) if t is not None}`
abbrev pub own_tokens : Option String → Option String → List String
own_tokens none none = []
own_tokens none (some r) = r ∷ []
own_tokens (some l) none = l ∷ []
own_tokens (some l) (some r) = l ∷ r ∷ []

-- `_referenced_tokens`, as a list
unfoldable mutual
  pub tokens_of : ConditionSpec → List String
  tokens_of (condition_spec op left right terms) = tokens_or (own_tokens left right) terms

  pub tokens_or : List String → OptionalTerms → List String
  tokens_or own unset = own
  tokens_or own (given no_terms) = own
  tokens_or own (given (term c cs)) = tokens_of c ++ tokens_of_all cs

  pub tokens_of_all : TermSpecs → List String
  tokens_of_all no_terms = []
  tokens_of_all (term c cs) = tokens_of c ++ tokens_of_all cs

abbrev pub check_each : {A : Type 0} → (A → Result (Unit {0})) → List A → Result (Unit {0})
check_each check [] = ok tt
check_each check (x ∷ xs) = check x >> check_each check xs

module _ {D : Type 0} where
  abbrev pub spec_names : List (IndicatorSpec D) → List String
  spec_names [] = []
  spec_names (spec ∷ specs) = spec.name ∷ spec_names specs

module _ {D : Type 0} ⦃d : Decimal D⦄ where
  abbrev positive : D → Result (Unit {0})
  positive x = raise_if (is_nonpos x) (value_error "must be greater than 0")

  unfoldable pub check_dca : DcaSpec D → Result (Unit {0})
  check_dca s = do
    positive s.quote_amount
    raise_if (leb s.interval_minutes 0) (value_error "must be greater than 0")

  unfoldable pub check_grid : GridSpec D → Result (Unit {0})
  check_grid s = do
    positive s.lower_price
    positive s.upper_price
    raise_if (ltb s.grid_levels 2 || ltb 200 s.grid_levels) (value_error "out of range")
    positive s.total_quote

  unfoldable pub check_ma_crossover : MaCrossoverSpec D → Result (Unit {0})
  check_ma_crossover s = do
    raise_if (ltb s.fast_period 2) (value_error "must be at least 2")
    raise_if (ltb s.slow_period 3) (value_error "must be at least 3")
    positive s.position_quote
    raise_if (leb s.slow_period s.fast_period) (value_error "slow_period must exceed fast_period")

  unfoldable pub check_ai_signal : AiSignalSpec D → Result (Unit {0})
  check_ai_signal s = do
    raise_if (str_eq s.symbol "") (value_error "at least 1 character")
    positive s.quote_amount
    raise_if (ltb s.decision_interval_minutes 1) (value_error "must be at least 1")
    raise_if (ltb s.lookback_bars 2 || ltb 500 s.lookback_bars) (value_error "out of range")
    raise_if (is_longer 2000 s.guidance) (value_error "at most 2000 characters")

  unfoldable pub check_python : PythonSpec D → Result (Unit {0})
  check_python s = do
    raise_if (str_eq s.symbol "") (value_error "at least 1 character")
    raise_if (str_eq s.strategy_key "") (value_error "at least 1 character")

  -- `IndicatorSpec`, with `_period_for_windowed`
  unfoldable pub check_indicator : IndicatorSpec D → Result (Unit {0})
  check_indicator s = do
    raise_if (str_eq s.name "") (value_error "at least 1 character")
    raise_if (is_windowed s.fn && ltb s.period 2) (value_error "requires period >= 2")

  -- `ActionSpec`, with `_limit_needs_offset`
  unfoldable pub check_action : ActionSpec D → Result (Unit {0})
  check_action s = do
    positive s.quote
    raise_if (is_limit s.type && is_none s.limit_offset_pct)
        (value_error "limit action requires limit_offset_pct")

  unfoldable pub check_rule : RuleSpec D → Result (Unit {0})
  unfolding check_condition check_action
  check_rule s = check_condition s.when >> check_action s.action

  -- the loop of `_names_resolve` over the rules
  unfoldable pub check_names : List String → List (RuleSpec D) → Result (Unit {0})
  unfolding check_tokens tokens_of
  check_names known [] = ok tt
  check_names known (rule ∷ rules) = do
    check_tokens (is_literal d) known (tokens_of rule.when)
    check_names known rules

  -- `CustomRulesParams`, with `_names_resolve`
  unfoldable pub check_custom_rules : CustomRulesSpec D → Result (Unit {0})
  unfolding check_indicator check_rule check_names
  check_custom_rules s =
      let names = spec_names s.indicators in
      do
        raise_if (str_eq s.symbol "") (value_error "at least 1 character")
        check_each check_indicator s.indicators
        raise_if (is_empty s.rules) (value_error "at least 1 item")
        check_each check_rule s.rules
        raise_if (has_duplicates names) (value_error "indicator names must be unique")
        raise_if (contains_name "price" names) (value_error "indicator name is reserved")
        check_names ("price" ∷ names) s.rules

  unfoldable pub check_config : StrategyConfig D → Result (Unit {0})
  unfolding check_dca check_grid check_ma_crossover check_custom_rules check_ai_signal check_python
  check_config (dca s) = check_dca s
  check_config (grid s) = check_grid s
  check_config (ma_crossover s) = check_ma_crossover s
  check_config (custom_rules s) = check_custom_rules s
  check_config (ai_signal s) = check_ai_signal s
  check_config (python s) = check_python s
