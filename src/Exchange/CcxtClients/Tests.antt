-- ===== src/Exchange/CcxtClients/Tests.antt =====
-- Clients for three venues.
use xbottrader.Exchange.CcxtClients.{class_of, build_ccxt_client, build_public_ccxt_client}
use xbottrader.Exchange.CcxtLive.{ExchangeCredentials}
use xbottrader.Prelude.{
  if◌then◌else◌, value_error, raised, ok, String, ◌≡◌, refl, true, ◌||◌, Option, none, some, str_eq,
}

abbrev by_name : String → Option String
by_name s = if str_eq s "alpaca" || str_eq s "kraken" then some s else none

abbrev creds : ExchangeCredentials
creds = record { api_key = "k"; secret = "s"; password = some "" }

practice :
    build_ccxt_client by_name "alpaca-paper" creds
    ≡ ok (record {
      exchange_class = "alpaca";
      api_key = some "k";
      secret = some "s";
      password = none;
      enable_rate_limit = true;
      sandbox = true;
    })
unfolding build_ccxt_client class_of
practice = refl

unknown :
    build_public_ccxt_client by_name (λ s. none) "nowhere" ≡ raised (value_error "unknown exchange")
unfolding build_public_ccxt_client class_of
unknown = refl
