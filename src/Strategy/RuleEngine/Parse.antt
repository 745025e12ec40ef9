-- ===== src/Strategy/RuleEngine/Parse.antt =====
-- The parsing helpers of strategies/rule_engine.py: `RuleEngineParams.from_dict` over Python values.
use xbottrader.Prelude.{
  if◌then◌else◌, value_error, key_error, type_error, Result, raised, ok, raise_if, ◌>>=◌, ◌>>◌, ℕ,
  String, Bool, ◌||◌, Option, none, some, List, [], ◌∷◌, str_eq,
}
use xbottrader.Decimal.{Decimal}
use xbottrader.Strategy.Base.{Side, buy, sell, OrderType, market, limit}
use xbottrader.Strategy.Value.{
  Value, null, text, number, decimal, list, dict, Values, no_items, item, Fields, end, field,
  Coercions, as_mapping, get_item, get_default, to_str, to_int, to_decimal,
}
use xbottrader.Strategy.RuleEngine.Config.{
  IndicatorFn, price, value, sma, rsi, IndicatorDef, Comparator, lt_op, le_op, gt_op, ge_op, eq_op,
  crossover, crossunder, Condition, comparison, negation, all_of, any_of, Conditions, nil, cons,
  Action, Rule, RuleEngineParams, indicator_def, action_init, rule_engine_params,
}

abbrev pub is_op : String → String → Bool
is_op op other = str_eq op other

-- `op in _BOOL_OPS`
abbrev pub is_bool_op : String → Bool
is_bool_op op = is_op op "and" || is_op op "or" || is_op op "not"

-- the member of `_COMPARATORS` with a text
abbrev pub comparator_of : String → Option Comparator
comparator_of op =
    if is_op op "<"
    then some lt_op
    else if is_op op "<="
    then some le_op
    else if is_op op ">"
    then some gt_op
    else if is_op op ">="
    then some ge_op
    else if is_op op "=="
    then some eq_op
    else if is_op op "crossover"
    then some crossover
    else if is_op op "crossunder"
    then some crossunder
    else none

-- the checks of `__post_init__` that the types of Config make
abbrev pub fn_of : String → Result IndicatorFn
fn_of fn =
    if str_eq fn "price"
    then ok price
    else if str_eq fn "value"
    then ok value
    else if str_eq fn "sma"
    then ok sma
    else if str_eq fn "rsi"
    then ok rsi
    else raised (value_error "unknown indicator fn")

abbrev pub side_of : String → Result Side
side_of side =
    if str_eq side "buy"
    then ok buy
    else if str_eq side "sell"
    then ok sell
    else raised (value_error "bad side")

abbrev pub type_of : String → Result OrderType
type_of type =
    if str_eq type "market"
    then ok market
    else if str_eq type "limit"
    then ok limit
    else raised (value_error "bad order type")

-- `_seq`
abbrev pub seq : {D : Type 0} → Value D → Result (Values D)
seq (list vs) = ok vs
seq null = raised (value_error "expected a list")
seq (text s) = raised (value_error "expected a list")
seq (number n) = raised (value_error "expected a list")
seq (decimal x) = raised (value_error "expected a list")
seq (dict fields) = raised (value_error "expected a list")

-- the end of `_parse_condition` for a boolean operator, with its terms parsed
abbrev pub negation_of : Conditions → Result Condition
negation_of nil = raised (value_error "'not' takes exactly one term")
negation_of (cons c nil) = ok (negation c)
negation_of (cons c (cons c' cs)) = raised (value_error "'not' takes exactly one term")

abbrev pub some_of : (Conditions → Condition) → Conditions → Result Condition
some_of junction nil = raised (value_error "needs at least one term")
some_of junction (cons c cs) = ok (junction (cons c cs))

abbrev pub bool_op : String → Conditions → Result Condition
bool_op op terms =
    if is_op op "not"
    then negation_of terms
    else if is_op op "and"
    then some_of all_of terms
    else some_of any_of terms

-- the end of `_parse_condition` for a comparison
abbrev pub compare_op : Option Comparator → Result String → Result String → Result Condition
compare_op none left right = raised (value_error "unknown condition op")
compare_op (some op) left right = do l ← left; r ← right; ok (comparison op l r)

-- the end of `_parse_condition`
abbrev pub condition_of :
    String → Result Conditions → Result String → Result String → Result Condition
condition_of op terms left right =
    if is_bool_op op then terms >>= bool_op op else compare_op (comparator_of op) left right

module _ {D : Type 0} (py : Coercions D) where
  -- `str(m[key])`
  abbrev pub text_item : String → Fields D → Result String
  text_item key fields = get_item key fields >>= λ v. ok (to_str py v)

  -- `_parse_condition`: the terms are parsed where the op is a boolean one
  unfoldable mutual
    pub parse_condition : Value D → Result Condition
    parse_condition (dict fields) =
        let terms = parse_terms fields in
        do
          op ← text_item "op" fields
          condition_of op terms (text_item "left" fields) (text_item "right" fields)
    parse_condition null = raised (type_error "vars() argument must have __dict__ attribute")
    parse_condition (text s) = raised (type_error "vars() argument must have __dict__ attribute")
    parse_condition (number n) = raised (type_error "vars() argument must have __dict__ attribute")
    parse_condition (decimal x) = raised (type_error "vars() argument must have __dict__ attribute")
    parse_condition (list vs) = raised (type_error "vars() argument must have __dict__ attribute")

    -- `tuple(_parse_condition(t) for t in _seq(m["terms"]))`
    pub parse_terms : Fields D → Result Conditions
    parse_terms end = raised (key_error "missing key")
    parse_terms (field key v rest) =
        let here = parse_seq v in
        let later = parse_terms rest in if str_eq key "terms" then here else later

    pub parse_seq : Value D → Result Conditions
    parse_seq (list vs) = parse_conditions vs
    parse_seq null = raised (value_error "expected a list")
    parse_seq (text s) = raised (value_error "expected a list")
    parse_seq (number n) = raised (value_error "expected a list")
    parse_seq (decimal x) = raised (value_error "expected a list")
    parse_seq (dict fields) = raised (value_error "expected a list")

    pub parse_conditions : Values D → Result Conditions
    parse_conditions no_items = ok nil
    parse_conditions (item v vs) = do
      c ← parse_condition v
      cs ← parse_conditions vs
      ok (cons c cs)

  -- `tuple(parse(x) for x in xs)`
  unfoldable pub parse_all : {A : Type 0} → (Value D → Result A) → Values D → Result (List A)
  parse_all parse no_items = ok []
  parse_all parse (item v vs) = do x ← parse v; xs ← parse_all parse vs; ok (x ∷ xs)

  module _ ⦃d : Decimal D⦄ where
    -- `IndicatorDef(…)`, from the text of its function
    unfoldable pub new_indicator : String → String → ℕ → D → Result (IndicatorDef D)
    unfolding indicator_def
    new_indicator name fn period constant = do
      raise_if (str_eq name "") (value_error "indicator name is required")
      known ← fn_of fn
      indicator_def (record { name = name; fn = known; period = period; constant = constant })

    unfoldable pub parse_indicator : Value D → Result (IndicatorDef D)
    unfolding new_indicator
    parse_indicator o = do
      m ← as_mapping o
      name ← text_item "name" m
      fn ← text_item "fn" m
      period ← to_int py (get_default "period" (number 0) m)
      constant ← to_decimal py (get_default "value" (number 0) m)
      new_indicator name fn period constant

    -- `Action(…)`, from the texts of its side and its type
    unfoldable pub new_action : String → String → D → Option D → Result (Action D)
    unfolding action_init
    new_action side type quote offset = do
      s ← side_of side
      t ← type_of type
      action_init (record { side = s; type = t; quote = quote; limit_offset_pct = offset })

    -- `_dec(offset) if offset is not None else None`
    abbrev pub offset_of : Value D → Result (Option D)
    offset_of null = ok none
    offset_of (text s) = to_decimal py (text s) >>= λ x. ok (some x)
    offset_of (number n) = to_decimal py (number n) >>= λ x. ok (some x)
    offset_of (decimal x) = ok (some x)
    offset_of (list vs) = to_decimal py (list vs) >>= λ x. ok (some x)
    offset_of (dict fields) = to_decimal py (dict fields) >>= λ x. ok (some x)

    unfoldable pub parse_action : Fields D → Result (Action D)
    unfolding new_action
    parse_action m = do
      side ← text_item "side" m
      let type = to_str py (get_default "type" (text "market") m)
      amount ← get_item "quote" m
      quote ← to_decimal py amount
      offset ← offset_of (get_default "limit_offset_pct" null m)
      new_action side type quote offset

    unfoldable pub parse_rule : Value D → Result (Rule D)
    unfolding parse_action parse_condition
    parse_rule o = do
      m ← as_mapping o
      to_do ← get_item "do" m
      fields ← as_mapping to_do
      action ← parse_action fields
      condition ← get_item "when" m
      when ← parse_condition condition
      cooldown ← to_int py (get_default "cooldown_minutes" (number 0) m)
      ok (record { when = when; action = action; cooldown_minutes = cooldown })

    -- `RuleEngineParams.from_dict`
    unfoldable pub from_dict : Fields D → Result (RuleEngineParams D)
    unfolding parse_all parse_indicator parse_rule rule_engine_params
    from_dict m = do
      symbol ← text_item "symbol" m
      listed ← get_item "indicators" m
      specs ← seq listed
      indicators ← parse_all parse_indicator specs
      told ← get_item "rules" m
      laws ← seq told
      rules ← parse_all parse_rule laws
      rule_engine_params (record { symbol = symbol; indicators = indicators; rules = rules })
