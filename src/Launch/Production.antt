-- ===== src/Launch/Production.antt =====
-- apps/bot-engine/app/launchers/production.py: what a start request is wired to. The database, the cipher
-- and the factories of clients are parameters; `X` is the type of clients, `E` of encrypted keys.
pub mod Gate
mod Tests
use xbottrader.Runtime.Companion.{Companion, build_ai_companion}
use xbottrader.Exchange.CcxtLive.{ExchangeCredentials, from_plaintext}
use xbottrader.Exchange.Paper.{PaperConfig, default_config}
use xbottrader.Market.Session.{
  AssetClass, crypto, us_equity, MarketSession, TimeZone, asset_class_for, session_for,
}
use xbottrader.Config.Factory.{Strategy, build_strategy}
use xbottrader.Config.Registry.{Registry, Decorated}
use xbottrader.Config.Schema.{
  CustomRulesSpec, StrategyConfig, dca, grid, ma_crossover, custom_rules, ai_signal, python,
}
use xbottrader.Strategy.Value.{Fields, Coercions}
use xbottrader.Decimal.{Decimal}
use xbottrader.Prelude.{
  if◌then◌else◌, value_error, Result, raised, ok, raise_if, ◌>>=◌, ◌>>◌, ℕ, ◌*◌, String, Bool, true,
  false, not, Option, none, some, List,
}

pub record LaunchRequest (D E : Type 0) : Type 0 where
  pub strategy : StrategyConfig D
  -- `mode == "live"`
  pub is_live : Bool
  pub exchange : String
  pub credentials : Option E

-- the adapter that places the orders, before the guard around it
pub data OrderAdapter (X : Type 0) : Type 0 where
  ccxt_venue : X → String → OrderAdapter X
  paper_venue : PaperConfig → String → OrderAdapter X

-- `LaunchPlan`: `guard` is the session of the `SessionGuardedAdapter`, and `marks_paper` tells whether
-- the mark sink of the bars is the paper adapter's `update_mark`.
pub record LaunchPlan (D S X : Type 0) : Type 0 where
  pub strategy : Strategy D S
  pub adapter : OrderAdapter X
  pub guard : Option MarketSession
  pub data_client : X
  pub symbol : String
  pub marks_paper : Bool
  pub session : Option MarketSession
  pub max_mark_age_ms : Option ℕ
  pub companion : Option Companion

-- what the launcher is made of
pub record Launcher (D S E X : Type 0) : Type 0 where
  pub allow_live : Bool
  pub decrypt : E → Result String
  pub loads : String → Result (Fields D)
  pub ccxt_client : String → ExchangeCredentials → Result X
  pub public_client : String → Result X
  pub equity_client : String → Result X
  -- the AI client, by its cap
  pub ai_client : Option (Option ℕ)
  pub modules : List (String × Decorated D S)

abbrev pub is_us_equity : AssetClass → Bool
is_us_equity us_equity = true
is_us_equity crypto = false

abbrev pub is_equity : String → Bool
is_equity exchange = is_us_equity (asset_class_for exchange)

-- `_EQUITY_MAX_MARK_AGE_MS`
abbrev pub equity_max_mark_age_ms : ℕ
equity_max_mark_age_ms = 15 * 60 * 1000

-- `PaperConfig(fee_bps=0, fee_currency="USD") if is_equity else PaperConfig()`
abbrev pub paper_config : Bool → PaperConfig
paper_config true = record default_config { fee_bps = 0; fee_currency = "USD" }
paper_config false = default_config

-- `params.symbol`
abbrev pub symbol_of : {D : Type 0} → StrategyConfig D → String
symbol_of (dca p) = p.symbol
symbol_of (grid p) = p.symbol
symbol_of (ma_crossover p) = p.symbol
symbol_of (custom_rules p) = p.symbol
symbol_of (ai_signal p) = p.symbol
symbol_of (python p) = p.symbol

abbrev pub when_equity {ℓ} : {A : Type ℓ} → Bool → A → Option A
when_equity true x = some x
when_equity false x = none

abbrev pub is_paper : {X : Type 0} → OrderAdapter X → Bool
is_paper (ccxt_venue client venue) = false
is_paper (paper_venue config venue) = true

abbrev pub given_credentials : {E : Type 0} → Option E → Result E
given_credentials none = raised (value_error "live mode requires encrypted credentials")
given_credentials (some e) = ok e

module _ {D S E X : Type 0} ⦃d : Decimal D⦄ (py : Coercions D)
    (model_dump : CustomRulesSpec D → Fields D) (zone : TimeZone) (l : Launcher D S E X) where
  -- `_build_live_adapter`
  unfoldable pub build_live_adapter : String → Option E → Result (OrderAdapter X)
  build_live_adapter exchange credentials = do
    raise_if (not l.allow_live) (value_error "live trading disabled")
    sealed ← given_credentials credentials
    plaintext ← l.decrypt sealed
    creds ← from_plaintext py l.loads plaintext
    client ← l.ccxt_client exchange creds
    ok (ccxt_venue client exchange)

  abbrev pub build_adapter : LaunchRequest D E → Result (OrderAdapter X)
  build_adapter request =
      if request.is_live
      then build_live_adapter request.exchange request.credentials
      else ok (paper_venue (paper_config (is_equity request.exchange)) request.exchange)

  abbrev pub build_data_client : String → Result X
  build_data_client exchange =
      if is_equity exchange then l.equity_client exchange else l.public_client exchange

  -- `launch`, with the registry that it leaves; `saved` is what the row in the database comes to
  unfoldable pub launch :
      Result (Unit {0})
      → LaunchRequest D E
      → Registry D S
      → Result (Registry D S × LaunchPlan D S X)
  unfolding build_live_adapter
  launch saved request reg =
      let session = session_for zone request.exchange in
      do
        saved
        built ← build_strategy py model_dump l.modules reg request.strategy
        adapter ← build_adapter request
        client ← build_data_client request.exchange
        companion ← build_ai_companion l.ai_client true request.strategy
        ok (
          built.0,
          record {
            strategy = built.1;
            adapter = adapter;
            guard = when_equity (is_equity request.exchange) session;
            data_client = client;
            symbol = symbol_of request.strategy;
            marks_paper = is_paper adapter;
            session = when_equity (is_equity request.exchange) session;
            max_mark_age_ms = when_equity (is_equity request.exchange) equity_max_mark_age_ms;
            companion = companion;
          },
        )
