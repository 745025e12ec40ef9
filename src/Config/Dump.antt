-- ===== src/Config/Dump.antt =====
-- What pydantic's `model_dump` gives for a configuration of the rule engine: each field under its name,
-- models as dicts. And the parameters that such a configuration means.
use xbottrader.Prelude.{
  if◌then◌else◌, or_default, String, Bool, true, false, ◌&&◌, Option, none, some, List, [], ◌∷◌,
  map,
}
use xbottrader.Strategy.Base.{Side, buy, sell, OrderType, market, limit}
use xbottrader.Strategy.Value.{
  Value, null, text, number, decimal, list, dict, Values, no_items, item, Fields, end, field,
}
use xbottrader.Strategy.RuleEngine.Config.{
  IndicatorFn, price, value, sma, rsi, IndicatorDef, eq_op, Condition, comparison, negation, all_of,
  any_of, Conditions, nil, cons, Action, Rule, RuleEngineParams,
}
use xbottrader.Strategy.RuleEngine.Parse.{is_op, is_bool_op, comparator_of}
use xbottrader.Config.Schema.{
  IndicatorSpec, ConditionSpec, condition_spec, OptionalTerms, unset, given, TermSpecs, no_terms,
  term, ActionSpec, RuleSpec, CustomRulesSpec,
}

abbrev pub fn_text : IndicatorFn → String
fn_text price = "price"
fn_text value = "value"
fn_text sma = "sma"
fn_text rsi = "rsi"

abbrev pub side_text : Side → String
side_text buy = "buy"
side_text sell = "sell"

abbrev pub type_text : OrderType → String
type_text market = "market"
type_text limit = "limit"

module _ {D : Type 0} where
  abbrev pub text_or_null : Option String → Value D
  text_or_null none = null
  text_or_null (some s) = text s

  abbrev pub decimal_or_null : Option D → Value D
  decimal_or_null none = null
  decimal_or_null (some x) = decimal x

  abbrev pub dump_all : {A : Type 0} → (A → Value D) → List A → Values D
  dump_all dump [] = no_items
  dump_all dump (x ∷ xs) = item (dump x) (dump_all dump xs)

  abbrev pub dump_indicator : IndicatorSpec D → Value D
  dump_indicator s = dict (
      field "name" (text s.name) (
        field "fn" (text (fn_text s.fn))
          (field "period" (number s.period) (field "value" (decimal s.constant) end))))

  unfoldable mutual
    pub dump_condition : ConditionSpec → Value D
    dump_condition (condition_spec op left right terms) = dict (
        field "op" (text op) (
          field "left" (text_or_null left)
            (field "right" (text_or_null right) (field "terms" (dump_optional terms) end))))

    pub dump_optional : OptionalTerms → Value D
    dump_optional unset = null
    dump_optional (given cs) = list (dump_terms cs)

    pub dump_terms : TermSpecs → Values D
    dump_terms no_terms = no_items
    dump_terms (term c cs) = item (dump_condition c) (dump_terms cs)

  abbrev pub dump_action : ActionSpec D → Value D
  dump_action s = dict (
      field "side" (text (side_text s.side)) (
        field "type" (text (type_text s.type)) (
          field "quote" (decimal s.quote)
            (field "limit_offset_pct" (decimal_or_null s.limit_offset_pct) end))))

  abbrev pub dump_rule : RuleSpec D → Value D
  dump_rule s = dict (
      field "when" (dump_condition s.when) (
        field "do" (dump_action s.action)
          (field "cooldown_minutes" (number s.cooldown_minutes) end)))

  abbrev pub dump_custom_rules : CustomRulesSpec D → Fields D
  dump_custom_rules s = field "strategy_type" (text "custom_rules") (
      field "symbol" (text s.symbol) (
        field "indicators" (list (dump_all dump_indicator s.indicators))
          (field "rules" (list (dump_all dump_rule s.rules)) end)))

-- A comparison with `terms` is accepted by the schema, which then resolves the names of the terms in
-- place of its own; in a plain condition only a boolean operator has terms.
abbrev is_unset : OptionalTerms → Bool
is_unset unset = true
is_unset (given no_terms) = true
is_unset (given (term c cs)) = false

unfoldable mutual
  pub is_plain : ConditionSpec → Bool
  is_plain (condition_spec op left right terms) =
      if is_bool_op op then is_plain_optional terms else is_unset terms

  pub is_plain_optional : OptionalTerms → Bool
  is_plain_optional unset = true
  is_plain_optional (given cs) = are_plain cs

  pub are_plain : TermSpecs → Bool
  are_plain no_terms = true
  are_plain (term c cs) = is_plain c && are_plain cs

module _ {D : Type 0} where
  unfoldable pub are_plain_rules : List (RuleSpec D) → Bool
  unfolding is_plain
  are_plain_rules [] = true
  are_plain_rules (rule ∷ rules) = is_plain rule.when && are_plain_rules rules

abbrev negation_first : Conditions → Condition
negation_first nil = all_of nil
negation_first (cons c cs) = negation c

-- the parameters that a configuration means; an absent text or an unknown op is left to the check
unfoldable mutual
  pub condition_meant : ConditionSpec → Condition
  condition_meant (condition_spec op left right terms) =
      if is_op op "not"
      then negation_first (terms_meant terms)
      else if is_op op "and"
      then all_of (terms_meant terms)
      else if is_op op "or"
      then any_of (terms_meant terms)
      else comparison (or_default eq_op (comparator_of op)) (or_default "" left)
          (or_default "" right)

  pub terms_meant : OptionalTerms → Conditions
  terms_meant unset = nil
  terms_meant (given cs) = conditions_meant cs

  pub conditions_meant : TermSpecs → Conditions
  conditions_meant no_terms = nil
  conditions_meant (term c cs) = cons (condition_meant c) (conditions_meant cs)

module _ {D : Type 0} where
  abbrev pub indicator_meant : IndicatorSpec D → IndicatorDef D
  indicator_meant s = record { name = s.name; fn = s.fn; period = s.period; constant = s.constant }

  abbrev pub action_meant : ActionSpec D → Action D
  action_meant s = record {
    side = s.side;
    type = s.type;
    quote = s.quote;
    limit_offset_pct = s.limit_offset_pct;
  }

  abbrev pub rule_meant : RuleSpec D → Rule D
  rule_meant s = record {
    when = condition_meant s.when;
    action = action_meant s.action;
    cooldown_minutes = s.cooldown_minutes;
  }

  abbrev pub params_meant : CustomRulesSpec D → RuleEngineParams D
  params_meant s = record {
    symbol = s.symbol;
    indicators = map indicator_meant s.indicators;
    rules = map rule_meant s.rules;
  }
