-- ===== src/Api/Requests.antt =====
-- The request models of apps/bot-engine/app/api/schemas.py and apps/ai-engine/app/api/schemas.py: what is
-- accepted of a request whose fields have the right types. The name of a role and a mode is one of
-- its literals by its type.
pub mod Parity
mod Tests
use xbottrader.Api.Symbols.{crypto_symbol_re, equity_symbol_re, validate_symbol}
use xbottrader.Market.Session.{crypto, asset_class_for}
use xbottrader.Launch.Production.{LaunchRequest, is_us_equity, symbol_of}
use xbottrader.Config.Schema.{StrategyConfig, is_longer, check_config}
use xbottrader.Strategy.Value.{item}
use xbottrader.Decimal.{Decimal, is_nonpos}
use xbottrader.Prelude.{
  ltb, if◌then◌else◌, length, is_empty, value_error, Result, ok, raise_if, ◌>>=◌, ◌>>◌, ℕ, String,
  not, Option, none, some, List, str_eq,
}
use Prim.Native.String.{count}

pub data ChatRole : Type 0 where
  user assistant : ChatRole

pub record ChatMessage : Type 0 where
  pub role : ChatRole
  pub content : String

pub record CopilotChatRequest : Type 0 where
  pub messages : List ChatMessage
  pub context : Option String

pub record AuthorStrategyRequest : Type 0 where
  pub description : String
  pub symbol : String
  pub exchange : String

pub record SignalRequest (D : Type 0) : Type 0 where
  pub symbol : String
  pub closes : List D
  pub position : D
  pub guidance : Option String
  pub model : Option String

pub record BacktestRequest (D : Type 0) : Type 0 where
  pub strategy : StrategyConfig D
  pub timeframe : String
  pub limit : ℕ
  pub since_ms : Option ℕ
  pub starting_cash : D
  pub exchange : String

-- `StartBotRequest`, with the limit of its `RiskLimits`
pub record StartBotRequest (D E : Type 0) : Type 0 where
  pub launch : LaunchRequest D E
  pub max_loss_quote : Option D

-- the validators `_symbol_matches_asset_class` of the AI engine
unfoldable pub symbol_matches_asset_class : String → String → Result (Unit {0})
symbol_matches_asset_class exchange symbol =
    if is_us_equity (asset_class_for exchange)
    then raise_if (not (equity_symbol_re symbol)) (value_error "not a valid equity ticker")
    else raise_if (not (crypto_symbol_re symbol)) (value_error "not a valid crypto pair")

abbrev pub not_empty : String → Result (Unit {0})
not_empty s = raise_if (str_eq s "") (value_error "at least 1 character")

unfoldable pub check_copilot_chat : CopilotChatRequest → Result (Unit {0})
check_copilot_chat r = raise_if (is_empty r.messages) (value_error "at least 1 item")

unfoldable pub check_author_strategy : AuthorStrategyRequest → Result (Unit {0})
unfolding symbol_matches_asset_class
check_author_strategy r = do
  not_empty r.description
  raise_if (ltb 4000 (count r.description)) (value_error "at most 4000 characters")
  not_empty r.symbol
  symbol_matches_asset_class r.exchange r.symbol

unfoldable pub check_signal : {D : Type 0} → SignalRequest D → Result (Unit {0})
check_signal r = do
  not_empty r.symbol
  raise_if (is_empty r.closes) (value_error "at least 1 item")
  raise_if (ltb 500 (length r.closes)) (value_error "at most 500 items")
  raise_if (is_longer 2000 r.guidance) (value_error "at most 2000 characters")

module _ {D : Type 0} ⦃d : Decimal D⦄ where
  abbrev pub above_zero : Option D → Result (Unit {0})
  above_zero none = ok tt
  above_zero (some x) = raise_if (is_nonpos x) (value_error "must be greater than 0")

  unfoldable pub check_backtest : BacktestRequest D → Result (Unit {0})
  unfolding check_config symbol_matches_asset_class
  check_backtest r = do
    check_config r.strategy
    raise_if (ltb r.limit 2) (value_error "must be at least 2")
    raise_if (ltb 1000 r.limit) (value_error "must be at most 1000")
    above_zero (some r.starting_cash)
    symbol_matches_asset_class r.exchange (symbol_of r.strategy)

  unfoldable pub check_start_bot : {E : Type 0} → StartBotRequest D E → Result (Unit {0})
  unfolding check_config validate_symbol
  check_start_bot r = do
    check_config r.launch.strategy
    above_zero r.max_loss_quote
    validate_symbol r.launch.exchange (symbol_of r.launch.strategy)
