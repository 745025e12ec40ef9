-- ===== src/Api/Requests/Tests.antt =====
-- Requests of both engines.
use xbottrader.Api.Requests.Parity.{check_backtest_iff}
use xbottrader.Api.Requests.{
  BacktestRequest, StartBotRequest, symbol_matches_asset_class, check_backtest, check_start_bot,
}
use xbottrader.Api.Symbols.{crypto_symbol_re, equity_symbol_re}
use xbottrader.Config.Schema.{StrategyConfig, grid, check_grid, check_config}
use xbottrader.Decimal.Whole.{ℤ, pos, whole}
use xbottrader.Prelude.{value_error, raised, ok, String, ◌≡◌, refl, ◌↔◌, false, none, some, arith}

abbrev grid_spec : StrategyConfig ℤ
grid_spec = grid (record {
  symbol = "BTC/USDT";
  lower_price = pos 100;
  upper_price = pos 200;
  grid_levels = 5;
  total_quote = pos 1000;
})

abbrev study : BacktestRequest ℤ
study = record {
  strategy = grid_spec;
  timeframe = "1h";
  limit = 500;
  since_ms = none;
  starting_cash = pos 10000;
  exchange = "kraken";
}

abbrev begin : StartBotRequest ℤ String
begin = record {
  launch = record {
    strategy = grid_spec;
    is_live = false;
    exchange = "kraken";
    credentials = none;
  };
  max_loss_quote = some (pos 50);
}

check_backtest_iff_example : (check_backtest study ≡ ok tt) ↔ (check_start_bot begin ≡ ok tt)
check_backtest_iff_example =
    check_backtest_iff study begin refl refl refl refl (omega arith) (omega arith)

study-accepted : check_backtest study ≡ ok tt
unfolding check_backtest check_config check_grid symbol_matches_asset_class crypto_symbol_re
study-accepted = refl

-- an equity ticker is no pair
wrong_venue :
    check_backtest (record study { exchange = "alpaca" })
    ≡ raised (value_error "not a valid equity ticker")
unfolding check_backtest check_config check_grid symbol_matches_asset_class equity_symbol_re
wrong_venue = refl
