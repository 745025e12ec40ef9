-- ===== src/Strategy/Dca/Spacing.antt =====
-- When the DCA strategy of strategies/dca.py buys, over any stream of bars.
use xbottrader.Prelude.{
  if◌then◌else◌, Bool-cases, ok, ℕ, ◌+◌, ◌*◌, ◌≤◌, ◌≡◌, refl, inl, inr, Bool, true, false, not,
  ◌&&◌, Option, none, some, List, [], ◌∷◌, arith, str_eq, str_eq_iff,
}
use xbottrader.Decimal.{Decimal, ◌⊘◌, is_pos, HasSigns}
use xbottrader.Strategy.Base.{buy, market, Bar, number_tag, OrderIntent, StrategyState}
use xbottrader.Strategy.Runs.{Log, run}
use xbottrader.Strategy.Dca.{DcaParams, is_early, dca_params, on_bar}

-- The bar may trigger a buy: it is of the symbol, has a price, and the interval is over.
abbrev pub is_due : {D : Type 0} ⦃d : Decimal D⦄ → DcaParams D → Option ℕ → Bar D → Bool
is_due p last bar =
    str_eq bar.symbol p.symbol
    && is_pos bar.close
    && not (is_early last bar.ts_ms (p.interval_minutes * 60000))

module _ {D : Type 0} ⦃d : Decimal D⦄ (p : DcaParams D) where
  -- The buy that a due bar triggers.
  abbrev pub purchase : Bar D → OrderIntent D
  purchase bar = record {
    symbol = p.symbol;
    side = buy;
    type = market;
    quantity = p.quote_amount ⊘ bar.close;
    limit_price = none;
    client_tag = number_tag "dca" bar.ts_ms;
  }

  -- At least the interval lies between `last` and a time.
  abbrev pub Elapsed : Option ℕ → ℕ → Type 0
  Elapsed none now = Unit
  Elapsed (some last) now = last + p.interval_minutes * 60000 ≤ now

  -- A log of purchases, each at least the interval after the one before it.
  abbrev pub IsSpaced : Option ℕ → Log (Bar D) D → Type 0
  IsSpaced last [] = Unit
  IsSpaced last ((bar, o) ∷ log) =
      (o ≡ purchase bar)
      × (bar.symbol ≡ p.symbol)
      × (is_pos bar.close ≡ true)
      × Elapsed last bar.ts_ms
      × IsSpaced (some bar.ts_ms) log

module _ {D : Type 0} ⦃d : Decimal D⦄ (signs : HasSigns D) (p : DcaParams D) where
  -- A bar that is due buys the quote amount at its close, and no other bar does anything.
  pub dca_on_bar_lem :
      (bar : Bar D) (s : StrategyState Unit)
      → dca_params p ≡ ok p
      → on_bar p bar s ≡ (
          if is_due p s.last_action_ts_ms bar
          then ok (purchase p bar ∷ [], record s { last_action_ts_ms = some bar.ts_ms })
          else ok ([], s))
  unfolding on_bar dca_params
  dca_on_bar_lem bar s valid = ground (arith, signs.div_pos p.quote_amount bar.close)

  Elapsed-is_early :
      (last : Option ℕ) (now : ℕ)
      → is_early last now (p.interval_minutes * 60000) ≡ false
      → Elapsed p last now
  Elapsed-is_early none now h = tt
  Elapsed-is_early (some last) now h = ground arith

  -- Over any stream of bars the strategy returns, and every intent is a purchase of the quote
  -- amount, at least the interval after the purchase before it.
  pub dca_run-IsSpaced :
      (bars : List (Bar D)) (s : StrategyState Unit)
      → dca_params p ≡ ok p
      → (log : Log (Bar D) D) × (t : StrategyState Unit) × (run (on_bar p) bars s ≡ ok (log, t))
        × IsSpaced p s.last_action_ts_ms log
  unfolding run
  dca_run-IsSpaced [] s valid = ([], s, refl, tt)
  dca_run-IsSpaced (bar ∷ bars) s valid = elim (Bool-cases (is_due p s.last_action_ts_ms bar)) [
    | inl due ↦
        let after : StrategyState Unit = record s { last_action_ts_ms = some bar.ts_ms } in
        let (log, t, e, h) = dca_run-IsSpaced bars after valid in
        (
          (bar, purchase p bar) ∷ log,
          t,
          rw (dca_on_bar_lem bar s valid, due, e),
          (
            refl,
            ground (arith, str_eq_iff bar.symbol p.symbol),
            ground arith,
            Elapsed-is_early s.last_action_ts_ms bar.ts_ms (ground arith),
            h,
          ),
        )
    | inr idle ↦
        let (log, t, e, h) = dca_run-IsSpaced bars s valid in
        (log, t, rw (dca_on_bar_lem bar s valid, idle, e), h)
  ]
