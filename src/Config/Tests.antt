-- ===== src/Config/Tests.antt =====
-- Configurations of strategies on whole numbers.
use xbottrader.Strategy.RuleEngine.Config.{referenced_names}
use xbottrader.Strategy.RuleEngine.Parse.{from_dict}
use xbottrader.Strategy.Base.{buy, market}
use xbottrader.Config.Fixtures.{py, dip_rules}
use xbottrader.Strategy.Grid.{grid_params}
use xbottrader.Strategy.Momentum.Params.{from_params}
use xbottrader.Strategy.Momentum.{MomentumParams, momentum_params}
use xbottrader.Config.Built.{strategy_meant, config-built}
use xbottrader.Config.Factory.{rule_engine_strategy, from_config, build_strategy}
use xbottrader.Config.Registry.{Registry, Decorated, with_from_params, register, import_all}
use xbottrader.Config.Dump.{dump_condition, dump_custom_rules, are_plain_rules, params_meant}
use xbottrader.Config.Schema.{
  GridSpec, condition_spec, unset, given, no_terms, term, CustomRulesSpec, grid, custom_rules,
  check_grid, check_custom_rules, check_config,
}
use xbottrader.Strategy.Value.{text, number, decimal, Fields, end, field}
use xbottrader.Prelude.{
  value_error, Result, raised, ok, String, ◌≡◌, refl, false, none, some, List, [], ◌∷◌, ◌++◌,
}
use xbottrader.Decimal.Whole.{ℤ, pos, whole}

abbrev buyer : Fields ℤ → Result (MomentumParams ℤ)
buyer = from_params py

-- the registry after the import of the package
abbrev no_strategies : Registry ℤ (MomentumParams ℤ)
no_strategies = record { factories = []; loaded = false }

abbrev momentum_modules : List (String × Decorated ℤ (MomentumParams ℤ))
momentum_modules = ("momentum", with_from_params buyer) ∷ []

abbrev momentum_fields : Fields ℤ
momentum_fields = field "symbol" (text "ETH/USD") (
    field "lookback" (number 3)
      (field "threshold_pct" (number 2) (field "quote_amount" (decimal (pos 10)) end)))

dip_rules-accepted : check_config (custom_rules dip_rules) ≡ ok tt
unfolding check_config
dip_rules-accepted = refl

config-built_example :
    build_strategy py dump_custom_rules momentum_modules no_strategies (custom_rules dip_rules)
    ≡ ok (no_strategies, rule_engine_strategy (params_meant dip_rules))
unfolding strategy_meant are_plain_rules
config-built_example =
    config-built py dump_custom_rules momentum_modules no_strategies (custom_rules dip_rules)
      (rule_engine_strategy (params_meant dip_rules)) (λ s. refl) dip_rules-accepted refl

-- the example's parameters pass the checks of the class
unfoldable parsed : Result (MomentumParams ℤ)
unfolding from_params momentum_params
parsed = buyer momentum_fields

momentum-parsed :
    parsed
    ≡ ok (record { symbol = "ETH/USD"; lookback = 3; threshold_pct = pos 2; quote_amount = pos 10 })
unfolding parsed from_params momentum_params
momentum-parsed = refl

-- registering a key again raises
second_registration :
    import_all (momentum_modules ++ momentum_modules) no_strategies
    ≡ raised (value_error "python strategy_key already registered")
unfolding import_all register
second_registration = refl

-- a grid whose prices are not in order is accepted by the schema and refused by the strategy
abbrev upside_down : GridSpec ℤ
upside_down = record {
  symbol = "BTC/USD";
  lower_price = pos 200;
  upper_price = pos 100;
  grid_levels = 5;
  total_quote = pos 1000;
}

upside_down-accepted : check_config (grid upside_down) ≡ ok tt
unfolding check_config check_grid
upside_down-accepted = refl

upside_down-refused :
    build_strategy py dump_custom_rules momentum_modules no_strategies (grid upside_down)
    ≡ raised (value_error "upper_price must exceed lower_price")
unfolding build_strategy grid_params
upside_down-refused = refl

-- a comparison with terms: the schema looks at the name in its term, the strategy at its own
abbrev with_terms : CustomRulesSpec ℤ
with_terms = record dip_rules {
  rules =
      record {
        when =
            condition_spec "<" (some "unknown") (some "price")
              (given (term (condition_spec "<" (some "fast") (some "price") unset) no_terms));
        action = record { side = buy; type = market; quote = pos 50; limit_offset_pct = none };
        cooldown_minutes = 0;
      }
      ∷ [];
}

with_terms-accepted : check_config (custom_rules with_terms) ≡ ok tt
unfolding check_config check_custom_rules
with_terms-accepted = refl

with_terms-refused :
    build_strategy py dump_custom_rules momentum_modules no_strategies (custom_rules with_terms)
    ≡ raised (value_error "rule references unknown indicator")
unfolding build_strategy from_config from_dict dump_condition referenced_names
with_terms-refused = refl
