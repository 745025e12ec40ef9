-- ===== src/Strategy/RuleEngine/Indicators.antt =====
-- `_compute` and `_indicator_values` of strategies/rule_engine.py.
use xbottrader.Prelude.{
  ltb, if◌then◌else◌, length, last_n, ℕ, ◌+◌, String, Option, none, some, List, [], ◌∷◌, str_eq,
}
use xbottrader.Decimal.{Decimal, ◌⊕◌, ◌⊖◌, ◌⊘◌, ◌⋖◌, sum, zero_of, is_pos}
use xbottrader.Strategy.RuleEngine.Config.{IndicatorFn, price, value, sma, rsi, IndicatorDef}

-- `closes[-1]`; the window is never empty where it is read, since the close was just appended
abbrev pub last? {ℓ} : {A : Type ℓ} → List A → Option A
last? [] = none
last? (x ∷ []) = some x
last? (x ∷ y ∷ xs) = last? (y ∷ xs)

-- a dict from operand names to values that may be `None`
abbrev pub Values : Type 0 → Type 0
Values D = List (String × Option D)

module _ {D : Type 0} where
  -- `vals[name] = v`
  unfoldable pub put_value : String → Option D → Values D → Values D
  put_value name v [] = (name, v) ∷ []
  put_value name v ((n, w) ∷ vals) =
      if str_eq n name then (n, v) ∷ vals else (n, w) ∷ put_value name v vals

  -- `vals.get(name)`: `None` too where the name is absent
  unfoldable pub get_value : String → Values D → Option D
  get_value name [] = none
  get_value name ((n, w) ∷ vals) = if str_eq n name then w else get_value name vals

module _ {D : Type 0} ⦃d : Decimal D⦄ where
  -- `[recent[i] - recent[i - 1] for i in range(1, len(recent))]`
  abbrev pub deltas : List D → List D
  deltas [] = []
  deltas (x ∷ []) = []
  deltas (x ∷ y ∷ xs) = (y ⊖ x) ∷ deltas (y ∷ xs)

  -- `d for d in deltas if d > 0`, and `-d for d in deltas if d < 0`
  abbrev pub gains_of : List D → List D
  gains_of [] = []
  gains_of (x ∷ xs) = if is_pos x then x ∷ gains_of xs else gains_of xs

  abbrev pub losses_of : List D → List D
  losses_of [] = []
  losses_of (x ∷ xs) = if x ⋖ zero_of D then d.neg x ∷ losses_of xs else losses_of xs

  -- the value of `sma` and of `rsi` over exactly the closes that they need
  unfoldable pub sma_value : ℕ → List D → D
  sma_value period recent = sum recent ⊘ d.of_ℕ period

  unfoldable pub rsi_value : ℕ → List D → D
  rsi_value period recent =
      let gains = sum (gains_of (deltas recent)) ⊘ d.of_ℕ period in
      let losses = sum (losses_of (deltas recent)) ⊘ d.of_ℕ period in
      let rs = gains ⊘ losses in
      if d.eq losses (zero_of D)
      then (if is_pos gains then d.of_ℕ 100 else d.of_ℕ 50)
      else d.of_ℕ 100 ⊖ d.of_ℕ 100 ⊘ (d.of_ℕ 1 ⊕ rs)

  -- `_compute`, by the kind of the indicator
  unfoldable pub compute_fn : IndicatorFn → ℕ → D → List D → Option D
  compute_fn value period constant closes = some constant
  compute_fn price period constant closes = last? closes
  compute_fn sma period constant closes =
      if ltb (length closes) period then none else some (sma_value period (last_n period closes))
  compute_fn rsi period constant closes =
      if ltb (length closes) (period + 1)
      then none
      else some (rsi_value period (last_n (period + 1) closes))

  unfoldable pub compute : IndicatorDef D → List D → Option D
  unfolding compute_fn
  compute ind closes = compute_fn ind.fn ind.period ind.constant closes

  -- `vals.update({ind.name: _compute(ind, closes) for ind in indicators})`
  unfoldable pub update_values : List (IndicatorDef D) → List D → Values D → Values D
  unfolding compute put_value
  update_values [] closes vals = vals
  update_values (ind ∷ inds) closes vals =
      update_values inds closes (put_value ind.name (compute ind closes) vals)

  -- `_indicator_values`
  unfoldable pub indicator_values : List (IndicatorDef D) → List D → Values D
  unfolding update_values
  indicator_values inds closes = update_values inds closes (("price", last? closes) ∷ [])
