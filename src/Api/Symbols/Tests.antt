-- ===== src/Api/Symbols/Tests.antt =====
-- Pairs and tickers.
use xbottrader.Api.Symbols.Grammar.{IsPair, validate_symbol_iff}
use xbottrader.Api.Symbols.{crypto_symbol_re, equity_symbol_re, validate_symbol}
use xbottrader.Prelude.{value_error, raised, ok, codes, ◌≡◌, refl, ◌↔◌, inl, []}

btc-IsPair : IsPair (codes "BTC/USDT")
btc-IsPair = (
  codes "BTC",
  codes "USDT",
  [],
  refl,
  (refl, (refl, (refl, (refl, tt)))),
  (refl, (refl, (refl, (refl, (refl, tt))))),
  inl refl,
)

validate_symbol_iff_example :
    (validate_symbol "kraken" "BTC/USDT" ≡ ok tt) ↔ IsPair (codes "BTC/USDT")
validate_symbol_iff_example = validate_symbol_iff "kraken" "BTC/USDT"

pair-ok : validate_symbol "kraken" "BTC/USDT" ≡ ok tt
pair-ok = (validate_symbol_iff "kraken" "BTC/USDT").1 btc-IsPair

newline-ok : validate_symbol "kraken" "BTC/USDT\n" ≡ ok tt
unfolding validate_symbol crypto_symbol_re
newline-ok = refl

class_share : validate_symbol "alpaca" "BRK.B" ≡ ok tt
unfolding validate_symbol equity_symbol_re
class_share = refl

six_letters : validate_symbol "alpaca" "GOOGLE" ≡ raised (value_error "not a valid equity ticker")
unfolding validate_symbol equity_symbol_re
six_letters = refl

no_base : validate_symbol "binance" "/USDT" ≡ raised (value_error "not a valid crypto pair")
unfolding validate_symbol crypto_symbol_re
no_base = refl
