-- ===== src/Config/Accepted.antt =====
-- packages/xbt-core/xbt_core/strategy_config.py against strategies/rule_engine.py: a configuration of the
-- rule engine that the schema accepts can be built.
use xbottrader.Strategy.Base.{Side, buy, sell, OrderType, market, limit}
use xbottrader.Decimal.{Decimal}
use xbottrader.Strategy.RuleEngine.Config.{
  IndicatorFn, price, value, sma, rsi, Conditions, referenced_names, referenced_of, check_tokens,
  is_literal, names_of, indicator_def, action_init, check_rules, rule_engine_params,
}
use xbottrader.Strategy.Value.{null, Coercions, to_str}
use xbottrader.Prelude.{
  Bool-cases, Option-cases, is_empty, Result, ok, then-ok, raise_if-ok, String, ◌≡◌, refl, ap, ◌∙◌,
  inl, inr, Bool, true, false, ◌&&◌, Option, none, some, List, [], ◌∷◌, ◌++◌, map, append-nil,
  arith,
}
use xbottrader.Strategy.RuleEngine.Parse.{
  is_bool_op, comparator_of, fn_of, side_of, type_of, condition_of, parse_condition, parse_seq,
  parse_conditions, parse_all, new_indicator, parse_indicator, new_action, offset_of, parse_action,
  parse_rule, from_dict,
}
use xbottrader.Config.Schema.{
  IndicatorSpec, ConditionSpec, condition_spec, OptionalTerms, unset, given, TermSpecs, no_terms,
  term, ActionSpec, RuleSpec, CustomRulesSpec, shape, check_condition, check_terms, tokens_of,
  tokens_of_all, check_each, spec_names, check_indicator, check_action, check_rule, check_names,
  check_custom_rules,
}
use xbottrader.Config.Dump.{
  fn_text, side_text, type_text, text_or_null, decimal_or_null, dump_all, dump_indicator,
  dump_condition, dump_terms, dump_rule, dump_custom_rules, is_plain, are_plain, are_plain_rules,
  condition_meant, terms_meant, conditions_meant, indicator_meant, action_meant, rule_meant,
  params_meant,
}

-- the shape check of a boolean operator bounds its terms
bool_shape-builds :
    (op : String) (left right : Option String) (terms : OptionalTerms) (l r : Result String)
    → shape op left right terms ≡ ok tt
    → is_bool_op op ≡ true
    → condition_of op (ok (terms_meant terms)) l r
      ≡ ok (condition_meant (condition_spec op left right terms))
unfolding condition_meant
bool_shape-builds op left right unset l r h b = ground arith
bool_shape-builds op left right (given no_terms) l r h b = ground arith
bool_shape-builds op left right (given (term c no_terms)) l r h b = ground arith
bool_shape-builds op left right (given (term c (term c' cs))) l r h b = ground arith

compare_shape-builds :
    (op : String) (left right : Option String) (terms : OptionalTerms) (ts : Result Conditions)
    (l r : Result String)
    → shape op left right terms ≡ ok tt
    → is_bool_op op ≡ false
    → ((s : String) → left ≡ some s → l ≡ ok s)
    → ((s : String) → right ≡ some s → r ≡ ok s)
    → condition_of op ts l r ≡ ok (condition_meant (condition_spec op left right terms))
unfolding condition_meant
compare_shape-builds op none right terms ts l r h b hl hr = ground arith
compare_shape-builds op (some s) none terms ts l r h b hl hr = ground arith
compare_shape-builds op (some s) (some t) terms ts l r h b hl hr =
    let el : l ≡ ok s = hl s refl in
    let er : r ≡ ok t = hr t refl in
    elim (Option-cases (comparator_of op)) [ inl e ↦ ground arith | inr (c, e) ↦ ground arith ]

-- of two checks in a row
both : (a b : Bool) → (a && b) ≡ true → (a ≡ true) × (b ≡ true)
both true b h = (refl, h)
both false b h = absurd cc

module _ {D : Type 0} (py : Coercions D) where
  -- `str(m["left"])` of what a condition dumps
  abbrev dumped_operand : Option String → Result String
  dumped_operand o = ok (to_str py (text_or_null o))

  given_text : (o : Option String) (s : String) → o ≡ some s → dumped_operand o ≡ ok s
  given_text o s e = rw e refl

  mutual
    unfolding check_condition is_plain dump_condition parse_condition condition_meant

    pub condition-builds :
        (c : ConditionSpec)
        → check_condition c ≡ ok tt
        → is_plain c ≡ true
        → parse_condition py (dump_condition c) ≡ ok (condition_meant c)
    condition-builds (condition_spec op left right unset) h p = elim (Bool-cases (is_bool_op op)) [
      | inl b ↦ absurd (ground arith)
      | inr b ↦
          compare_shape-builds op left right unset (parse_seq py null) (dumped_operand left)
            (dumped_operand right) h b (given_text left) (given_text right)
    ]
    condition-builds (condition_spec op left right (given cs)) h p =
        let hs = then-ok (check_terms cs) (shape op left right (given cs)) tt h in
        elim (Bool-cases (is_bool_op op)) [
          | inl b ↦
              let ps : are_plain cs ≡ true = ground arith in
              ap (λ ts. condition_of op ts (dumped_operand left) (dumped_operand right))
                (terms-build cs hs.0 ps)
              ∙ bool_shape-builds op left right (given cs) (dumped_operand left)
                  (dumped_operand right) hs.1 b
          | inr b ↦
              compare_shape-builds op left right (given cs) (parse_conditions py (dump_terms cs))
                (dumped_operand left) (dumped_operand right) hs.1 b (given_text left)
                (given_text right)
        ]

    pub terms-build :
        (cs : TermSpecs)
        → check_terms cs ≡ ok tt
        → are_plain cs ≡ true
        → parse_conditions py (dump_terms cs) ≡ ok (conditions_meant cs)
    terms-build no_terms h p = refl
    terms-build (term c cs) h p =
        let hs = then-ok (check_condition c) (check_terms cs) tt h in
        let ps = both (is_plain c) (are_plain cs) p in
        let e1 = condition-builds c hs.0 ps.0 in
        let e2 = terms-build cs hs.1 ps.1 in rw e1 (rw e2 refl)

-- the names that a condition refers to are the ones that the schema resolves
comparison-names :
    (op : String) (left right : Option String) (terms : OptionalTerms)
    → shape op left right terms ≡ ok tt
    → is_bool_op op ≡ false
    → is_plain (condition_spec op left right terms) ≡ true
    → referenced_names (condition_meant (condition_spec op left right terms))
      ≡ tokens_of (condition_spec op left right terms)
unfolding is_plain condition_meant tokens_of referenced_names
comparison-names op none right terms h b p = ground arith
comparison-names op (some l) none terms h b p = ground arith
comparison-names op (some l) (some r) unset h b p = ground arith
comparison-names op (some l) (some r) (given no_terms) h b p = ground arith
comparison-names op (some l) (some r) (given (term c cs)) h b p = ground arith

bool-names :
    (op : String) (left right : Option String) (c : ConditionSpec) (cs : TermSpecs)
    → shape op left right (given (term c cs)) ≡ ok tt
    → is_bool_op op ≡ true
    → referenced_names (condition_meant (condition_spec op left right (given (term c cs))))
      ≡ referenced_of (conditions_meant (term c cs))
unfolding condition_meant referenced_names
bool-names op left right c no_terms h b =
    let e : referenced_names (condition_meant c) ++ [] ≡ referenced_names (condition_meant c) =
      append-nil (referenced_names (condition_meant c)) in
    ground arith
bool-names op left right c (term c' cs) h b = ground arith

mutual
  unfolding check_condition is_plain condition_meant tokens_of referenced_names

  pub condition-names :
      (c : ConditionSpec)
      → check_condition c ≡ ok tt
      → is_plain c ≡ true
      → referenced_names (condition_meant c) ≡ tokens_of c
  condition-names (condition_spec op left right unset) h p = elim (Bool-cases (is_bool_op op)) [
    | inl b ↦ absurd (ground arith)
    | inr b ↦ comparison-names op left right unset h b p
  ]
  condition-names (condition_spec op left right (given no_terms)) h p =
      elim (Bool-cases (is_bool_op op)) [
        | inl b ↦ absurd (ground arith)
        | inr b ↦ comparison-names op left right (given no_terms) h b p
      ]
  condition-names (condition_spec op left right (given (term c cs))) h p =
      let hs = then-ok (check_terms (term c cs)) (shape op left right (given (term c cs))) tt h in
      elim (Bool-cases (is_bool_op op)) [
        | inl b ↦
            let pc : is_plain c && are_plain cs ≡ true = ground arith in
            bool-names op left right c cs hs.1 b ∙ terms-names (term c cs) hs.0 pc
        | inr b ↦ comparison-names op left right (given (term c cs)) hs.1 b p
      ]

  pub terms-names :
      (cs : TermSpecs)
      → check_terms cs ≡ ok tt
      → are_plain cs ≡ true
      → referenced_of (conditions_meant cs) ≡ tokens_of_all cs
  terms-names no_terms h p = refl
  terms-names (term c cs) h p =
      let hs = then-ok (check_condition c) (check_terms cs) tt h in
      let ps = both (is_plain c) (are_plain cs) p in
      let e1 = condition-names c hs.0 ps.0 in
      let e2 = terms-names cs hs.1 ps.1 in rw e1 (rw e2 refl)

known_fn : (fn : IndicatorFn) → fn_of (fn_text fn) ≡ ok fn
known_fn price = refl
known_fn value = refl
known_fn sma = refl
known_fn rsi = refl

known_side : (side : Side) → side_of (side_text side) ≡ ok side
known_side buy = refl
known_side sell = refl

known_type : (type : OrderType) → type_of (type_text type) ≡ ok type
known_type market = refl
known_type limit = refl

module _ {D : Type 0} ⦃d : Decimal D⦄ (py : Coercions D) where
  indicator-builds :
      (s : IndicatorSpec D)
      → check_indicator s ≡ ok tt
      → parse_indicator py (dump_indicator s) ≡ ok (indicator_meant s)
  unfolding check_indicator parse_indicator new_indicator indicator_def
  indicator-builds s h = rw (known_fn s.fn) (ground arith)

  given_offset : (o : Option D) → offset_of py (decimal_or_null o) ≡ ok o
  given_offset none = refl
  given_offset (some x) = refl

  action-builds :
      (s : ActionSpec D)
      → check_action s ≡ ok tt
      → new_action py (side_text s.side) (type_text s.type) s.quote s.limit_offset_pct
        ≡ ok (action_meant s)
  unfolding check_action new_action action_init
  action-builds s h = rw (known_side s.side) (rw (known_type s.type) (ground arith))

  rule-builds :
      (s : RuleSpec D)
      → check_rule s ≡ ok tt
      → is_plain s.when ≡ true
      → parse_rule py (dump_rule s) ≡ ok (rule_meant s)
  unfolding check_rule parse_rule parse_action
  rule-builds s h p =
      let hs = then-ok (check_condition s.when) (check_action s.action) tt h in
      let e1 = given_offset s.action.limit_offset_pct in
      let e2 = action-builds s.action hs.1 in
      let e3 = condition-builds py s.when hs.0 p in rw e1 (rw e2 (rw e3 refl))

  indicators-build :
      (ss : List (IndicatorSpec D))
      → check_each check_indicator ss ≡ ok tt
      → parse_all py (parse_indicator py) (dump_all dump_indicator ss) ≡ ok (map indicator_meant ss)
  unfolding parse_all
  indicators-build [] h = refl
  indicators-build (s ∷ ss) h =
      let hs = then-ok (check_indicator s) (check_each check_indicator ss) tt h in
      let e1 = indicator-builds s hs.0 in let e2 = indicators-build ss hs.1 in rw e1 (rw e2 refl)

  rules-build :
      (ss : List (RuleSpec D))
      → check_each check_rule ss ≡ ok tt
      → are_plain_rules ss ≡ true
      → parse_all py (parse_rule py) (dump_all dump_rule ss) ≡ ok (map rule_meant ss)
  unfolding parse_all are_plain_rules
  rules-build [] h p = refl
  rules-build (s ∷ ss) h p =
      let hs = then-ok (check_rule s) (check_each check_rule ss) tt h in
      let ps = both (is_plain s.when) (are_plain_rules ss) p in
      let e1 = rule-builds s hs.0 ps.0 in let e2 = rules-build ss hs.1 ps.1 in rw e1 (rw e2 refl)

is_empty-map : {A B : Type 0} (f : A → B) (xs : List A) → is_empty (map f xs) ≡ is_empty xs
is_empty-map f [] = refl
is_empty-map f (x ∷ xs) = refl

module _ {D : Type 0} ⦃d : Decimal D⦄ where
  names-meant : (ss : List (IndicatorSpec D)) → names_of (map indicator_meant ss) ≡ spec_names ss
  names-meant [] = refl
  names-meant (s ∷ ss) = ap (λ ns. s.name ∷ ns) (names-meant ss)

  -- the loop over the names of the rules passes where the one over the tokens does
  rules-checked :
      (known : List String) (ss : List (RuleSpec D))
      → check_each check_rule ss ≡ ok tt
      → are_plain_rules ss ≡ true
      → check_names known ss ≡ ok tt
      → check_rules known (map rule_meant ss) ≡ ok tt
  unfolding are_plain_rules check_names check_rules check_rule
  rules-checked known [] h p n = refl
  rules-checked known (s ∷ ss) h p n =
      let hs = then-ok (check_rule s) (check_each check_rule ss) tt h in
      let hc = then-ok (check_condition s.when) (check_action s.action) tt hs.0 in
      let ps = both (is_plain s.when) (are_plain_rules ss) p in
      let ns =
        then-ok (check_tokens (is_literal d) known (tokens_of s.when)) (check_names known ss) tt
          n in
      let e1 = condition-names s.when hc.0 ps.0 in
      let e2 = rules-checked known ss hs.1 ps.1 ns.1 in rw e1 (rw ns.0 e2)

  -- an accepted configuration with plain conditions is the one that `from_dict` reads from its dump
  pub accepted-builds :
      (py : Coercions D) (s : CustomRulesSpec D)
      → check_custom_rules s ≡ ok tt
      → are_plain_rules s.rules ≡ true
      → from_dict py (dump_custom_rules s) ≡ ok (params_meant s)
  unfolding from_dict check_custom_rules rule_engine_params
  accepted-builds py s h p =
      let e1 = then-ok _ _ tt h in
      let e2 = then-ok _ _ tt e1.1 in
      let e3 = then-ok _ _ tt e2.1 in
      let e4 = then-ok _ _ tt e3.1 in
      let e5 = then-ok _ _ tt e4.1 in
      let e6 = then-ok _ _ tt e5.1 in
      let b1 = indicators-build py s.indicators e2.0 in
      let b2 = rules-build py s.rules e4.0 p in
      let b3 = names-meant s.indicators in
      let b4 = rules-checked ("price" ∷ spec_names s.indicators) s.rules e4.0 p e6.1 in
      let b5 = is_empty-map rule_meant s.rules in
      rw b1 (
        rw b2 (
          rw b3 (
            rw b4 (
              rw b5 (
                rw (raise_if-ok _ _ e1.0) (
                  rw (raise_if-ok _ _ e3.0)
                    (rw (raise_if-ok _ _ e5.0) (rw (raise_if-ok _ _ e6.0) refl))))))))
