-- ===== src/Fixtures.antt =====
-- Test data that the test modules share: bars of one symbol over whole numbers.
use xbottrader.Prelude.{ℕ, none}
use xbottrader.Decimal.Whole.{ℤ, pos}
use xbottrader.Strategy.Base.{Bar, StrategyState}

abbrev pub bar_at : ℕ → ℕ → Bar ℤ
bar_at ts price = record {
  ts_ms = ts;
  symbol = "BTC/USDT";
  open_price = pos price;
  high = pos price;
  low = pos price;
  close = pos price;
  volume = pos 0;
}

abbrev pub fresh : {C : Type 0} → C → StrategyState C
fresh slots = record { last_action_ts_ms = none; custom = slots }
