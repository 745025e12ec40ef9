-- ===== src/Config/Fixtures.antt =====
-- Test data: a configuration of the rule engine on whole numbers.
use xbottrader.Config.Schema.{
  ConditionSpec, condition_spec, unset, given, no_terms, term, CustomRulesSpec,
}
use xbottrader.Strategy.RuleEngine.Config.{sma}
use xbottrader.Strategy.Value.{Coercions}
use xbottrader.Strategy.Base.{buy, limit}
use xbottrader.Prelude.{type_error, raised, none, some, [], ◌∷◌}
use xbottrader.Decimal.Whole.{ℤ, pos, whole}

-- an unknown value has no text and is no int
abbrev pub py : Coercions ℤ
py = record { show = λ v. ""; read_int = λ v. raised (type_error "not a number") }

abbrev pub dip : ConditionSpec
dip = condition_spec "and" none none (
    given (
      term (condition_spec "crossover" (some "price") (some "fast") unset) (
        term
          (condition_spec "not" none none
            (given (term (condition_spec "<" (some "fast") (some "slow") unset) no_terms)))
          no_terms)))

abbrev pub dip_rules : CustomRulesSpec ℤ
dip_rules = record {
  symbol = "BTC/USD";
  indicators =
      record { name = "fast"; fn = sma; period = 5; constant = pos 0 }
      ∷ record { name = "slow"; fn = sma; period = 20; constant = pos 0 }
      ∷ [];
  rules =
      record {
        when = dip;
        action = record {
          side = buy;
          type = limit;
          quote = pos 50;
          limit_offset_pct = some (pos 1);
        };
        cooldown_minutes = 30;
      }
      ∷ [];
}
