-- ===== src/Api/Requests/Parity.antt =====
-- The request models of both engines, compared.
use xbottrader.Config.Schema.{check_config}
use xbottrader.Api.Requests.{
  BacktestRequest, StartBotRequest, symbol_matches_asset_class, above_zero, check_backtest,
  check_start_bot,
}
use xbottrader.Api.Symbols.{validate_symbol}
use xbottrader.Launch.Production.{symbol_of}
use xbottrader.Decimal.{Decimal}
use xbottrader.Prelude.{
  ltb, ok, raise_if, then-ok, then-both, raise_if-none, ◌≤◌, String, ◌≡◌, refl, sym, ap, ◌∙◌, ◌↔◌,
  some, arith,
}

same-symbols :
    (exchange symbol : String)
    → symbol_matches_asset_class exchange symbol ≡ validate_symbol exchange symbol
unfolding symbol_matches_asset_class validate_symbol
same-symbols exchange symbol = refl

module _ {D E : Type 0} ⦃d : Decimal D⦄ where
  -- A strategy is accepted for a backtest on an exchange exactly if it is accepted for a start there, whatever the
  -- mode and the credentials, where the loss limit, if there is one, and the starting cash are above 0 and the
  -- backtest asks for 2 to 1000 bars.
  pub check_backtest_iff :
      (b : BacktestRequest D) (r : StartBotRequest D E)
      → b.strategy ≡ r.launch.strategy
      → b.exchange ≡ r.launch.exchange
      → above_zero r.max_loss_quote ≡ ok tt
      → above_zero (some b.starting_cash) ≡ ok tt
      → 2 ≤ b.limit
      → b.limit ≤ 1000
      → (check_backtest b ≡ ok tt) ↔ (check_start_bot r ≡ ok tt)
  unfolding check_backtest check_start_bot
  check_backtest_iff b r es ee loss cash low high =
      let checks = ap check_config es in
      let symbols : symbol_matches_asset_class b.exchange (symbol_of b.strategy)
          ≡ validate_symbol r.launch.exchange (symbol_of r.launch.strategy) =
        same-symbols b.exchange (symbol_of b.strategy)
        ∙ (λ i. validate_symbol (ee i) (symbol_of (es i))) in
      (
        λ h.
            let (config, h1) = then-ok (check_config b.strategy) _ tt h in
            let (enough, h2) = then-ok (raise_if (ltb b.limit 2) _) _ tt h1 in
            let (few, h3) = then-ok (raise_if (ltb 1000 b.limit) _) _ tt h2 in
            let (cash, symbol) = then-ok (above_zero (some b.starting_cash)) _ tt h3 in
            then-both _ _ (sym checks ∙ config) (then-both _ _ loss (sym symbols ∙ symbol)),
        λ h.
            let (config, h1) = then-ok (check_config r.launch.strategy) _ tt h in
            let (limit_ok, symbol) = then-ok (above_zero r.max_loss_quote) _ tt h1 in
            then-both _ _ (checks ∙ config) (
              then-both _ _ (raise_if-none (ltb b.limit 2) _ (ground arith)) (
                then-both _ _ (raise_if-none (ltb 1000 b.limit) _ (ground arith))
                  (then-both _ _ cash (symbols ∙ symbol)))),
      )
