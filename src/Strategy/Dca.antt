-- ===== src/Strategy/Dca.antt =====
-- packages/xbt-core/xbt_core/strategies/dca.py. The strategy keeps nothing in `custom`.
pub mod Spacing
mod Tests
use xbottrader.Prelude.{
  ltb, leb, if◌then◌else◌, value_error, Result, ok, ◌>>=◌, ◌>>◌, raise_if, ℕ, ◌+◌, ◌*◌, String,
  Bool, false, not, Option, none, some, [], ◌∷◌, str_eq,
}
use xbottrader.Decimal.{Decimal, ◌⊘◌, is_nonpos}
use xbottrader.Strategy.Base.{buy, number_tag, market_order, OnBar}

pub record DcaParams (D : Type 0) : Type 0 where
  pub symbol : String
  pub quote_amount : D
  pub interval_minutes : ℕ

-- `last` is set and less than `interval_ms` ago; a difference of timestamps is written as a sum
abbrev pub is_early : Option ℕ → ℕ → ℕ → Bool
is_early none now interval_ms = false
is_early (some last) now interval_ms = ltb now (last + interval_ms)

module _ {D : Type 0} ⦃d : Decimal D⦄ where
  -- `DcaParams.__post_init__`
  unfoldable pub dca_params : DcaParams D → Result (DcaParams D)
  dca_params p = do
    raise_if (is_nonpos p.quote_amount) (value_error "quote_amount must be positive")
    raise_if (leb p.interval_minutes 0) (value_error "interval_minutes must be positive")
    ok p

  unfoldable pub on_bar : DcaParams D → OnBar D Unit
  unfolding market_order
  on_bar p bar state =
      let interval_ms = p.interval_minutes * 60000 in
      if not (str_eq bar.symbol p.symbol)
      then ok ([], state)
      else if is_early state.last_action_ts_ms bar.ts_ms interval_ms
      then ok ([], state)
      else if is_nonpos bar.close
      then ok ([], state)
      else do
        let qty = p.quote_amount ⊘ bar.close
        intent ← market_order p.symbol buy qty (number_tag "dca" bar.ts_ms)
        ok (intent ∷ [], record state { last_action_ts_ms = some bar.ts_ms })
