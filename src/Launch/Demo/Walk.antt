-- ===== src/Launch/Demo/Walk.antt =====
-- apps/bot-engine/app/launchers/demo_paper.py: the bars of the random walk.
use xbottrader.Launch.Demo.{Walker, next_price, synthetic_bars}
use xbottrader.Exchange.CcxtLive.{Fed}
use xbottrader.Decimal.{Decimal, ◌⊕◌, ◌⊗◌, ◌⊘◌, is_pos, is_nonpos, HasSigns}
use xbottrader.Prelude.{
  Bool-cases, All, ℕ, ◌+◌, String, ◌≡◌, refl, inl, inr, true, some, List, [], ◌∷◌, arith,
}

module _ {D : Type 0} ⦃d : Decimal D⦄ (signs : HasSigns D) (symbol : String) (interval_ms : ℕ) where
  -- a bar of the symbol with a positive price, for which the paper exchange has been marked
  abbrev pub IsMarked : Fed D → Type 0
  IsMarked f =
      (is_pos f.bar.close ≡ true)
      × (f.marked ≡ some (symbol, f.bar.close))
      × (f.bar.symbol ≡ symbol)

  next_price-positive : (price change : D) → is_pos (next_price price change) ≡ true
  next_price-positive price change =
      let one = signs.of_ℕ_pos 1 (omega arith) in
      elim (Bool-cases (is_nonpos (price ⊗ (d.of_ℕ 1 ⊕ change ⊘ d.of_ℕ 10000)))) [
        | inl e ↦ rw e one
        | inr e ↦ rw e (rw e refl)
      ]

  -- Whatever changes are drawn, a walk from a positive price yields bars of the symbol with positive prices, each after
  -- the mark of the paper exchange has been set to its close.
  pub synthetic_bars-AreMarked :
      (w : Walker D) (changes : List D)
      → is_pos w.price ≡ true
      → All IsMarked (synthetic_bars symbol interval_ms w changes)
  unfolding synthetic_bars
  synthetic_bars-AreMarked w [] h = tt
  synthetic_bars-AreMarked w (change ∷ changes) h = (
    (h, refl, refl),
    synthetic_bars-AreMarked
        (record { price = next_price w.price change; ts_ms = w.ts_ms + interval_ms }) changes
        (next_price-positive w.price change),
  )
