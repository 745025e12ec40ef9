-- ===== src/Strategy/RuleEngine/Engine/Parity.antt =====
-- The window of strategies/rule_engine.py makes a bot that starts in the middle of a stream see the
-- indicator values that a longer history gives.
use xbottrader.Prelude.{
  ltb, if◌then◌else◌, Bool-cases, length, drop, last_n, length-drop, last_n_short, last_n-last_n,
  last_n-append, Result, ok, ◌>>=◌, bind-ok, ok-injective, ℕ, zero, suc, ◌+◌, ◌-◌, ◌≤◌, ◌<◌, ◌≡◌,
  refl, sym, ap, subst, ◌∙◌, inl, inr, Bool, true, false, not, ◌&&◌, ◌||◌, List, [], ◌∷◌, arith,
  str_eq,
}
use xbottrader.Decimal.{Decimal, is_pos, is_nonpos}
use xbottrader.Strategy.Base.{Bar, OrderIntent, StrategyState}
use xbottrader.Strategy.Runs.{Log, run}
use xbottrader.Strategy.Window.{push_close, push_closes, push_closes-last_n}
use xbottrader.Strategy.RuleEngine.Config.{
  IndicatorFn, price, value, sma, rsi, IndicatorDef, RuleEngineParams, window_of, window,
  max_window,
}
use xbottrader.Strategy.RuleEngine.Indicators.{last?, compute_fn, compute, indicator_values}
use xbottrader.Strategy.RuleEngine.Engine.{RuleSlots, visit_from, on_bar}

last?-drop {ℓ} : {A : Type ℓ} (k : ℕ) (xs : List A) → k < length xs → last? (drop k xs) ≡ last? xs
last?-drop zero xs h = refl
last?-drop (suc k) [] h = absurd (omega arith)
last?-drop (suc k) (x ∷ []) h = absurd (omega arith)
last?-drop (suc k) (x ∷ y ∷ xs) h = last?-drop k (y ∷ xs) (omega arith)

last?-last_n {ℓ} : {A : Type ℓ} (n : ℕ) (xs : List A) → 1 ≤ n → last? (last_n n xs) ≡ last? xs
last?-last_n n [] h = let e : 0 - n ≡ 0 = omega arith in rw e
last?-last_n n (x ∷ xs) h = last?-drop (suc (length xs) - n) (x ∷ xs) (omega arith)

-- the tests `len(closes) < k` agree on a long enough tail
shorter_than {ℓ} :
    {A : Type ℓ} (k n : ℕ) (xs : List A) → k ≤ n → ltb (length (last_n n xs)) k ≡ ltb (length xs) k
shorter_than k n xs h = ground (arith, length-drop (length xs - n) xs)

module _ {D : Type 0} ⦃d : Decimal D⦄ where
  compute_fn-last_n :
      (fn : IndicatorFn) (period : ℕ) (constant : D) (n : ℕ) (history : List D)
      → window_of fn period ≤ n
      → compute_fn fn period constant (last_n n history) ≡ compute_fn fn period constant history
  unfolding compute_fn
  compute_fn-last_n value period constant n history h = refl
  compute_fn-last_n price period constant n history h = last?-last_n n history h
  compute_fn-last_n sma period constant n history h =
      rw (shorter_than period n history h, last_n-last_n period n history h)
  compute_fn-last_n rsi period constant n history h =
      rw (shorter_than (period + 1) n history h, last_n-last_n (period + 1) n history h)

  -- An indicator reads no more than the last `window` closes of any history.
  pub compute-last_n :
      (ind : IndicatorDef D) (n : ℕ) (history : List D)
      → window ind ≤ n
      → compute ind (last_n n history) ≡ compute ind history
  unfolding compute
  compute-last_n ind n history h = compute_fn-last_n ind.fn ind.period ind.constant n history h

  abbrev pub is_accepted : RuleEngineParams D → Bar D → Bool
  is_accepted p bar = str_eq bar.symbol p.symbol && is_pos bar.close

  -- the closes of the bars that `on_bar` does not skip
  abbrev pub closes_of : RuleEngineParams D → List (Bar D) → List D
  closes_of p [] = []
  closes_of p (bar ∷ bars) =
      if is_accepted p bar then bar.close ∷ closes_of p bars else closes_of p bars

  -- What the bars leave in the window and in the previous values.
  abbrev pub Follows :
      RuleEngineParams D
      → StrategyState (RuleSlots D)
      → List D
      → StrategyState (RuleSlots D)
      → Type 0
  Follows p s [] t = (t.custom.closes ≡ s.custom.closes) × (t.custom.prev_ind ≡ s.custom.prev_ind)
  Follows p s (c ∷ cs) t =
      (t.custom.closes ≡ push_closes (max_window p.indicators) s.custom.closes (c ∷ cs))
      × (t.custom.prev_ind ≡ indicator_values p.indicators t.custom.closes)

module _ {D : Type 0} ⦃d : Decimal D⦄ (p : RuleEngineParams D) where
  -- the first bar is accepted, and the rest follow from the state that it leaves
  Follows-cons :
      (s mid t : StrategyState (RuleSlots D)) (c : D) (cs : List D)
      → mid.custom.closes ≡ push_close (max_window p.indicators) c s.custom.closes
      → mid.custom.prev_ind ≡ indicator_values p.indicators mid.custom.closes
      → Follows p mid cs t
      → Follows p s (c ∷ cs) t
  unfolding push_closes
  Follows-cons s mid t c [] e v f =
      (f.0 ∙ e, f.1 ∙ (v ∙ ap (indicator_values p.indicators) (sym f.0)))
  Follows-cons s mid t c (c' ∷ cs) e v f = (rw (← e) f.0, f.1)

  on_bar_skips :
      (bar : Bar D) (s : StrategyState (RuleSlots D))
      → is_accepted p bar ≡ false
      → on_bar p bar s ≡ ok ([], s)
  unfolding on_bar
  on_bar_skips bar s h = ground arith

  -- an accepted bar that returns has pushed its close
  on_bar-window :
      (bar : Bar D) (s mid : StrategyState (RuleSlots D)) (os : List (OrderIntent D))
      → is_accepted p bar ≡ true
      → on_bar p bar s ≡ ok (os, mid)
      → (mid.custom.closes ≡ push_close (max_window p.indicators) bar.close s.custom.closes)
        × (mid.custom.prev_ind ≡ indicator_values p.indicators mid.custom.closes)
  unfolding on_bar
  on_bar-window bar s mid os good returned =
      let go : (not (str_eq bar.symbol p.symbol) || is_nonpos bar.close) ≡ false = ground arith in
      let closes = push_close (max_window p.indicators) bar.close s.custom.closes in
      let cur = indicator_values p.indicators closes in
      let body : Result (List (OrderIntent D) × StrategyState (RuleSlots D)) = (do
        (intents, marks) ←
            visit_from p.symbol cur s.custom.prev_ind 0 p.rules bar
              (s.custom.rule_truth, s.custom.rule_fire_ts)
        let after : RuleSlots D = record {
          closes = closes;
          prev_ind = cur;
          rule_truth = marks.0;
          rule_fire_ts = marks.1;
        }
        ok (intents, record s { custom = after })) in
      let here : on_bar p bar s ≡ body = rw go refl in
      let (out, visited, same) =
        bind-ok
          (visit_from p.symbol cur s.custom.prev_ind 0 p.rules bar
            (s.custom.rule_truth, s.custom.rule_fire_ts))
          _ (os, mid) (sym here ∙ returned) in
      let state =
        ap (λ (x : List (OrderIntent D) × StrategyState (RuleSlots D)). x.1) (ok-injective same) in
      (
        ap (λ (x : StrategyState (RuleSlots D)). x.custom.closes) (sym state),
        ap (λ (x : StrategyState (RuleSlots D)). x.custom.prev_ind) (sym state)
            ∙ ap
                (λ (x : StrategyState (RuleSlots D)). indicator_values p.indicators x.custom.closes)
                state,
      )

  run-Follows :
      (bars : List (Bar D)) (s t : StrategyState (RuleSlots D)) (log : Log (Bar D) D)
      → run (on_bar p) bars s ≡ ok (log, t)
      → Follows p s (closes_of p bars) t
  unfolding run
  run-Follows [] s t log returned =
      let same =
        ap (λ (x : Log (Bar D) D × StrategyState (RuleSlots D)). x.1) (ok-injective returned) in
      (
        ap (λ (x : StrategyState (RuleSlots D)). x.custom.closes) (sym same),
        ap (λ (x : StrategyState (RuleSlots D)). x.custom.prev_ind) (sym same),
      )
  run-Follows (bar ∷ bars) s t log returned =
      let ((os, mid), e, rest) = bind-ok (on_bar p bar s) _ (log, t) returned in
      let ((more, u), e', same) = bind-ok (run (on_bar p) bars mid) _ (log, t) rest in
      let last =
        ap (λ (x : Log (Bar D) D × StrategyState (RuleSlots D)). x.1) (ok-injective same) in
      let f = run-Follows bars mid t more (e' ∙ ap (λ x. ok (more, x)) last) in
      elim (Bool-cases (is_accepted p bar)) [
        | inl good ↦
            let (w, v) = on_bar-window bar s mid os good e in
            rw good (Follows-cons s mid t bar.close (closes_of p bars) w v f)
        | inr bad ↦
            let still =
              ap (λ (x : List (OrderIntent D) × StrategyState (RuleSlots D)). x.1)
                (ok-injective (sym e ∙ on_bar_skips bar s bad)) in
            rw bad (
              subst (λ (x : StrategyState (RuleSlots D)). Follows p x (closes_of p bars) t) still f)
      ]

  -- the window that the bars leave, where they are enough to fill it
  full_window :
      (s t : StrategyState (RuleSlots D)) (cs : List D)
      → length s.custom.closes ≤ max_window p.indicators
      → max_window p.indicators ≤ length cs
      → 0 < length cs
      → Follows p s cs t
      → (t.custom.closes ≡ last_n (max_window p.indicators) cs)
        × (t.custom.prev_ind ≡ indicator_values p.indicators t.custom.closes)
  full_window s t [] short enough some_bar f = absurd (omega arith)
  full_window s t (c ∷ cs) short enough some_bar f =
      let w = max_window p.indicators in
      (
        f.0
            ∙ (ap (λ (xs : List D). push_closes w xs (c ∷ cs))
                  (sym (last_n_short w s.custom.closes short))
                ∙ (push_closes-last_n w (c ∷ cs) s.custom.closes
                    ∙ last_n-append w s.custom.closes (c ∷ cs) enough)),
        f.1,
      )

  -- Two runs over the same bars that return, from any two states whose windows are no longer than the
  -- engine's, an empty window and the end of a long history included, leave the same window and the same
  -- indicator values, once the bars hold enough closes to fill the window.
  pub rule_engine_converges :
      (bars : List (Bar D)) (s s' t t' : StrategyState (RuleSlots D)) (log log' : Log (Bar D) D)
      → run (on_bar p) bars s ≡ ok (log, t)
      → run (on_bar p) bars s' ≡ ok (log', t')
      → length s.custom.closes ≤ max_window p.indicators
      → length s'.custom.closes ≤ max_window p.indicators
      → max_window p.indicators ≤ length (closes_of p bars)
      → 0 < length (closes_of p bars)
      → (t.custom.closes ≡ last_n (max_window p.indicators) (closes_of p bars))
        × (t'.custom.closes ≡ t.custom.closes)
        × (t'.custom.prev_ind ≡ t.custom.prev_ind)
  rule_engine_converges bars s s' t t' log log' e e' short short' enough some_bar =
      let f = run-Follows bars s t log e in
      let f' = run-Follows bars s' t' log' e' in
      let (w, v) = full_window s t (closes_of p bars) short enough some_bar f in
      let (w', v') = full_window s' t' (closes_of p bars) short' enough some_bar f' in
      let same : t'.custom.closes ≡ t.custom.closes = w' ∙ sym w in
      (w, same, v' ∙ (ap (indicator_values p.indicators) same ∙ sym v))
