-- ===== src/Strategy/RuleEngine/Engine/Edges.antt =====
-- When a rule of strategies/rule_engine.py fires: on a rising edge of its condition, once its
-- cooldown is over.
use xbottrader.Strategy.RuleEngine.Engine.Outcomes.{
  Cooled, Outcome, unmet, still_met, cooling, no_price, fires, Outcomes, HasActions,
  AreRulesNumbers,
}
use xbottrader.Prelude.{
  Bool-cases, Result, ok, ℕ, zero, suc, ◌+◌, ◌*◌, ◌<◌, String, ◌≡◌, refl, sym, ◌∙◌, ◌≢◌, ◌⊎◌, inl,
  inr, Bool, true, false, not, ◌||◌, Option, none, some, List, [], ◌∷◌, ◌++◌, arith, str_eq,
  str_eq_iff,
}
use xbottrader.Decimal.{Decimal, ◌⊕◌, ◌⊗◌, ◌⊘◌, is_pos, is_nonpos, HasSigns}
use xbottrader.Strategy.Base.{
  Side, OrderType, market, limit, Bar, ClientTag, number_tag, OrderIntent, StrategyState,
  market_intent, limit_intent, market_order_lem, limit_order_lem,
}
use xbottrader.Strategy.Window.{push_close}
use xbottrader.Strategy.RuleEngine.Config.{Rule, RuleEngineParams, max_window, action_init}
use xbottrader.Strategy.RuleEngine.Indicators.{Values, indicator_values}
use xbottrader.Strategy.RuleEngine.Conditions.{eval}
use xbottrader.Strategy.RuleEngine.Conditions.Truth.{is_true, AreNumbers, eval-is_true}
use xbottrader.Strategy.RuleEngine.Engine.{
  ByRule, put, Marks, RuleSlots, is_cooling, limit_price_of, limit_action, market_action, intent_of,
  fire, visit, visit_from, on_bar,
}

module _ {D : Type 0} ⦃d : Decimal D⦄ (signs : HasSigns D) (symbol : String) (cur prev : Values D)
    (bar : Bar D) (close_pos : is_pos bar.close ≡ true) where
  -- what `_intent` returns for a valid action
  abbrev Made : Rule D → Result (Option (OrderIntent D)) → Type 0
  Made rule r =
      ((rule.action.type ≡ limit)
        × ((target : D) × (limit_price_of bar.close rule.action.limit_offset_pct ≡ ok target)
            × (is_nonpos target ≡ true))
        × (r ≡ ok none))
      ⊎ ((o : OrderIntent D) × (r ≡ ok (some o))
          × (o.side ≡ rule.action.side)
          × (o.type ≡ rule.action.type)
          × (is_pos o.quantity ≡ true))

  limit_action-Made :
      (side : Side) (quote target : D)
      → is_pos quote ≡ true
      → ((is_nonpos target ≡ true) × (limit_action symbol side quote target bar.ts_ms ≡ ok none))
        ⊎ ((o : OrderIntent D) × (limit_action symbol side quote target bar.ts_ms ≡ ok (some o))
            × (o.side ≡ side)
            × (o.type ≡ limit)
            × (is_pos o.quantity ≡ true))
  unfolding limit_action
  limit_action-Made side quote target h = elim (Bool-cases (is_nonpos target)) [
    | inl below ↦ inl (below, rw below)
    | inr above ↦
        let fine : is_pos (quote ⊘ target) ≡ true = signs.div_pos quote target h (ground arith) in
        let tag : ClientTag D = number_tag "rule-limit" bar.ts_ms in
        inr (
          limit_intent symbol side (quote ⊘ target) target tag,
          rw (above, limit_order_lem symbol side (quote ⊘ target) target tag fine),
          refl,
          refl,
          fine,
        )
  ]

  market_action-Made :
      (side : Side) (quote : D)
      → is_pos quote ≡ true
      → (o : OrderIntent D) × (market_action symbol side quote bar.close bar.ts_ms ≡ ok (some o))
        × (o.side ≡ side)
        × (o.type ≡ market)
        × (is_pos o.quantity ≡ true)
  unfolding market_action
  market_action-Made side quote h =
      let fine = signs.div_pos quote bar.close h close_pos in
      let tag : ClientTag D = number_tag "rule" bar.ts_ms in
      (
        market_intent symbol side (quote ⊘ bar.close) tag,
        rw (market_order_lem symbol side (quote ⊘ bar.close) tag fine),
        refl,
        refl,
        fine,
      )

  intent_of-Made :
      (rule : Rule D)
      → action_init rule.action ≡ ok rule.action
      → Made rule (intent_of symbol rule bar)
  unfolding intent_of action_init
  intent_of-Made rule h = by_type rule.action.type rule.action.limit_offset_pct refl refl
    where
      quote_pos : is_pos rule.action.quote ≡ true
      quote_pos = ground arith

      by_type :
          (t : OrderType) (offset : Option D)
          → rule.action.type ≡ t
          → rule.action.limit_offset_pct ≡ offset
          → Made rule (intent_of symbol rule bar)
      by_type market offset e e' =
          let (o, m, side, type, pos) =
            market_action-Made rule.action.side rule.action.quote quote_pos in
          inr (o, ground arith, side, type ∙ sym e, pos)
      by_type limit none e e' = absurd (ground arith)
      by_type limit (some offset) e e' =
          let target = bar.close ⊗ (d.of_ℕ 1 ⊕ offset ⊘ d.of_ℕ 100) in
          elim (limit_action-Made rule.action.side rule.action.quote target quote_pos) [
            | inl (below, m) ↦ inl (e, (target, ground arith, below), ground arith)
            | inr (o, m, side, type, pos) ↦ inr (o, ground arith, side, type ∙ sym e, pos)
          ]

  Cooled-is_cooling :
      (cooldown ts : ℕ) (prior : Option ℕ)
      → is_cooling cooldown prior ts ≡ false
      → Cooled cooldown prior ts
  Cooled-is_cooling cooldown ts none h = tt
  Cooled-is_cooling zero ts (some prior) h = inl refl
  Cooled-is_cooling (suc n) ts (some prior) h = inr (ground arith)

  cooling_of :
      (cooldown ts : ℕ) (prior : Option ℕ)
      → is_cooling cooldown prior ts ≡ true
      → (p : ℕ) × (prior ≡ some p) × (ts < p + cooldown * 60000)
  cooling_of cooldown ts none h = cc
  cooling_of cooldown ts (some p) h = (p, refl, ground arith)

  -- one rule, by the tests of the loop's body in their order
  abbrev Visited : ℕ → Rule D → Marks → Result (List (OrderIntent D) × Marks) → Type 0
  Visited idx rule before r =
      (os : List (OrderIntent D)) × (after : Marks) × (r ≡ ok (os, after))
      × (after.0 ≡ put idx (is_true rule.when cur prev) before.0)
      × Outcome idx rule bar (is_true rule.when cur prev) before os after

  fire-Visited :
      (idx : ℕ) (rule : Rule D) (before : Marks)
      → action_init rule.action ≡ ok rule.action
      → is_true rule.when cur prev ≡ true
      → before.0 idx ≢ some true
      → Cooled rule.cooldown_minutes (before.1 idx) bar.ts_ms
      → Visited idx rule before
          (fire symbol idx rule bar (put idx (is_true rule.when cur prev) before.0, before.1))
  unfolding fire
  fire-Visited idx rule before valid now fresh cooled =
      let marked = put idx (is_true rule.when cur prev) before.0 in
      elim (intent_of-Made rule valid) [
        | inl (is_limit_type, (target, priced, below), e) ↦ (
          [],
          (marked, before.1),
          rw e,
          refl,
          no_price is_limit_type target priced below refl refl,
        )
        | inr (o, e, side, type, pos) ↦ (
          o ∷ [],
          (marked, put idx bar.ts_ms before.1),
          rw e,
          refl,
          fires o refl side type pos now fresh cooled refl,
        )
      ]

  visit-Visited :
      (idx : ℕ) (rule : Rule D) (before : Marks)
      → action_init rule.action ≡ ok rule.action
      → AreNumbers rule.when cur prev
      → Visited idx rule before (visit symbol cur prev idx rule bar before)
  unfolding visit
  visit-Visited idx rule before valid numbers =
      by_tests (is_true rule.when cur prev) (before.0 idx) refl refl
    where
      evaluated : eval rule.when cur prev ≡ ok (is_true rule.when cur prev)
      evaluated = eval-is_true rule.when cur prev numbers

      quiet : Marks
      quiet = (put idx (is_true rule.when cur prev) before.0, before.1)

      by_tests :
          (now : Bool) (was : Option Bool)
          → is_true rule.when cur prev ≡ now
          → before.0 idx ≡ was
          → Visited idx rule before (visit symbol cur prev idx rule bar before)
      by_tests false was e e' = ([], quiet, rw (evaluated, e) refl, refl, unmet e refl refl)
      by_tests true (some true) e e' =
          ([], quiet, rw evaluated (ground arith), refl, still_met e' refl refl)
      by_tests true was e e' =
          elim (Bool-cases (is_cooling rule.cooldown_minutes (before.1 idx) bar.ts_ms)) [
            | inl cool ↦
                let (p, known, early) =
                  cooling_of rule.cooldown_minutes bar.ts_ms (before.1 idx) cool in
                ([], quiet, rw evaluated (ground arith), refl, cooling p known early refl refl)
            | inr over ↦
                let cooled =
                  Cooled-is_cooling rule.cooldown_minutes bar.ts_ms (before.1 idx) over in
                let fresh : before.0 idx ≢ some true = λ (x : before.0 idx ≡ some true). cc in
                let step : visit symbol cur prev idx rule bar before
                    ≡ fire symbol idx rule bar quiet =
                  rw evaluated (ground arith) in
                let (os, after, r, t, out) = fire-Visited idx rule before valid e fresh cooled in
                (os, after, step ∙ r, t, out)
          ]

  -- every rule in turn
  visit_from-Outcomes :
      (idx : ℕ) (rules : List (Rule D)) (before : Marks)
      → HasActions rules
      → AreRulesNumbers cur prev rules
      → (os : List (OrderIntent D)) × (after : Marks) × (visit_from symbol cur prev idx rules bar
            before
          ≡ ok (os, after))
        × Outcomes cur prev idx rules bar before os after
  unfolding visit_from
  visit_from-Outcomes idx [] before h n = ([], before, refl, (refl, refl))
  visit_from-Outcomes idx (rule ∷ rules) before h n =
      let (mine, between, e, t, out) = visit-Visited idx rule before h.0 n.0 in
      let (more, after, e', rest) = visit_from-Outcomes (idx + 1) rules between h.1 n.1 in
      (mine ++ more, after, rw (e, e'), (mine, more, between, refl, t, out, rest))

module _ {D : Type 0} ⦃d : Decimal D⦄ (signs : HasSigns D) (p : RuleEngineParams D)
    (actions : HasActions p.rules) where
  -- A bar of the symbol with a price returns, where no condition of the rules compares a NaN, the actions are
  -- valid, and a quotient of positive numbers is positive. Each rule has its outcome on the indicator values of
  -- the window that ends in this bar and on those of the bar before: it fires, with a valid order of
  -- its side and type, exactly if its condition holds and did not hold before, its cooldown is over
  -- and a limit price, where it has one, is positive. The state keeps the window, the values, the
  -- truth of each condition and the times of the fires.
  pub rule_engine_on_bar-Outcomes :
      (bar : Bar D) (s : StrategyState (RuleSlots D))
      → bar.symbol ≡ p.symbol
      → is_pos bar.close ≡ true
      → let closes = push_close (max_window p.indicators) bar.close s.custom.closes in
        let cur = indicator_values p.indicators closes in
        AreRulesNumbers cur s.custom.prev_ind p.rules
        → (os : List (OrderIntent D)) × (truth : ByRule Bool) × (fired : ByRule ℕ) × (on_bar p bar s
            ≡ ok (
              os,
              record s {
                custom = record {
                  closes = closes;
                  prev_ind = cur;
                  rule_truth = truth;
                  rule_fire_ts = fired;
                };
              },
            ))
          × Outcomes cur s.custom.prev_ind 0 p.rules bar
              (s.custom.rule_truth, s.custom.rule_fire_ts)
              os
              (truth, fired)
  unfolding on_bar
  rule_engine_on_bar-Outcomes bar s same h numbers =
      let closes = push_close (max_window p.indicators) bar.close s.custom.closes in
      let cur = indicator_values p.indicators closes in
      let before : Marks = (s.custom.rule_truth, s.custom.rule_fire_ts) in
      let (os, after, e, out) =
        visit_from-Outcomes signs p.symbol cur s.custom.prev_ind bar h 0 p.rules before actions
          numbers in
      let go : (not (str_eq bar.symbol p.symbol) || is_nonpos bar.close) ≡ false =
        ground (arith, str_eq_iff bar.symbol p.symbol) in
      (os, after.0, after.1, rw (go, e), out)
