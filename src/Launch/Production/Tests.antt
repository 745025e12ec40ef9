-- ===== src/Launch/Production/Tests.antt =====
-- A live and a paper request on whole numbers; a client is a text, and so is an encrypted key.
use xbottrader.Runtime.Companion.{build_ai_companion}
use xbottrader.Exchange.CcxtLive.{from_plaintext}
use xbottrader.Strategy.Dca.{dca_params}
use xbottrader.Market.Session.{TimeZone}
use xbottrader.Config.Factory.{build_strategy}
use xbottrader.Config.Registry.{Registry}
use xbottrader.Config.Dump.{dump_custom_rules}
use xbottrader.Config.Schema.{dca}
use xbottrader.Strategy.Momentum.{MomentumParams}
use xbottrader.Decimal.Whole.{ℤ, pos, whole}
use xbottrader.Config.Fixtures.{py}
use xbottrader.Launch.Production.Gate.{IsGated, KeepsHours, launch-IsGated}
use xbottrader.Launch.Production.{
  LaunchRequest, OrderAdapter, ccxt_venue, LaunchPlan, Launcher, is_paper, launch,
}
use xbottrader.Strategy.Value.{text, Fields, end, field}
use xbottrader.Prelude.{
  value_error, Result, raised, ok, Returns, ◌+◌, ◌*◌, ◌/◌, ◌%◌, String, ◌≡◌, refl, Bool, true,
  false, Option, none, some, [],
}

abbrev keyless : Fields ℤ
keyless = field "apiKey" (text "k") (field "secret" (text "s") end)

abbrev launcher : Bool → Launcher ℤ (MomentumParams ℤ) String String
launcher allow = record {
  allow_live = allow;
  decrypt = λ sealed. ok sealed;
  loads = λ plaintext. ok keyless;
  ccxt_client = λ exchange creds. ok creds.api_key;
  public_client = λ exchange. ok exchange;
  equity_client = λ exchange. ok exchange;
  ai_client = none;
  modules = [];
}

abbrev nobody : Registry ℤ (MomentumParams ℤ)
nobody = record { factories = []; loaded = false }

abbrev dca_request : Bool → String → LaunchRequest ℤ String
dca_request live exchange = record {
  strategy = dca (record { symbol = "BTC/USD"; quote_amount = pos 10; interval_minutes = 60 });
  is_live = live;
  exchange = exchange;
  credentials = some "sealed";
}

abbrev clock : TimeZone
clock = record {
  local_of = λ ms. record { day = ms / 86400000; time = ms % 86400000 };
  ms_of = λ t. t.day * 86400000 + t.time;
}

abbrev launched :
    Bool
    → Bool
    → String
    → Result (Registry ℤ (MomentumParams ℤ) × LaunchPlan ℤ (MomentumParams ℤ) String)
launched allow live exchange =
    launch py dump_custom_rules clock (launcher allow) (ok tt) (dca_request live exchange) nobody

abbrev adapter_of :
    Result (Registry ℤ (MomentumParams ℤ) × LaunchPlan ℤ (MomentumParams ℤ) String)
    → Option (OrderAdapter String)
adapter_of (raised e) = none
adapter_of (ok (reg, plan)) = some plan.adapter

live-allowed : adapter_of (launched true true "binance") ≡ some (ccxt_venue "k" "binance")
unfolding launch build_strategy dca_params from_plaintext build_ai_companion
live-allowed = refl

live-refused : launched false true "binance" ≡ raised (value_error "live trading disabled")
unfolding launch build_strategy dca_params
live-refused = refl

launch-IsGated_example :
    Returns
      (λ plan.
        IsGated py dump_custom_rules clock
          (launcher true)
          (dca_request true "binance")
          plan.1.adapter
        × (plan.1.marks_paper ≡ is_paper plan.1.adapter)
        × KeepsHours py dump_custom_rules clock (launcher true) (dca_request true "binance") plan.1)
      (launched true true "binance")
launch-IsGated_example =
    launch-IsGated py dump_custom_rules clock (launcher true) (ok tt) (dca_request true "binance")
      nobody
