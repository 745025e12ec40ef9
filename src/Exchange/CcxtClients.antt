-- ===== src/Exchange/CcxtClients.antt =====
-- apps/bot-engine/app/exchanges/ccxt_live.py: how a ccxt client is set up. A client is its class and what it is
-- made with; `K` is the type of ccxt's classes, found by name.
mod Tests
use xbottrader.Exchange.CcxtAdapter.{is_alpaca}
use xbottrader.Exchange.CcxtLive.{ExchangeCredentials}
use xbottrader.Prelude.{
  if◌then◌else◌, value_error, Result, raised, ok, ◌>>=◌, ◌>>◌, String, Bool, true, false, Option,
  none, some, str_eq,
}

-- the keys of `config`, and whether the client is in sandbox mode
pub record ClientSetup (K : Type 0) : Type 0 where
  pub exchange_class : K
  pub api_key : Option String
  pub secret : Option String
  pub password : Option String
  pub enable_rate_limit : Bool
  pub sandbox : Bool

abbrev pub found_class : {K : Type 0} → Option K → Result K
found_class none = raised (value_error "unknown exchange")
found_class (some k) = ok k

-- a text that is not empty
abbrev pub set_text : Option String → Option String
set_text none = none
set_text (some s) = if str_eq s "" then none else some s

-- both keys, or neither
abbrev pub key_pair : Option String → Option String → Option (String × String)
key_pair (some key) (some secret) = some (key, secret)
key_pair none secret = none
key_pair (some key) none = none

module _ {K : Type 0} (classes : String → Option K) where
  -- `_exchange_class`
  unfoldable pub class_of : String → Result K
  class_of exchange = found_class (classes (if is_alpaca exchange then "alpaca" else exchange))

  -- `build_ccxt_client`
  unfoldable pub build_ccxt_client : String → ExchangeCredentials → Result (ClientSetup K)
  unfolding class_of
  build_ccxt_client exchange credentials = do
    cls ← class_of exchange
    ok (record {
      exchange_class = cls;
      api_key = some credentials.api_key;
      secret = some credentials.secret;
      password = set_text credentials.password;
      enable_rate_limit = true;
      sandbox = str_eq exchange "alpaca-paper";
    })

  -- the public client with the keys of the environment, where it has both
  abbrev pub public_setup : K → Option (String × String) → ClientSetup K
  public_setup cls none = record {
    exchange_class = cls;
    api_key = none;
    secret = none;
    password = none;
    enable_rate_limit = true;
    sandbox = false;
  }
  public_setup cls (some keys) = record {
    exchange_class = cls;
    api_key = some keys.0;
    secret = some keys.1;
    password = none;
    enable_rate_limit = true;
    sandbox = false;
  }

  -- `build_public_ccxt_client`
  unfoldable pub build_public_ccxt_client :
      (String → Option String) → String → Result (ClientSetup K)
  unfolding class_of
  build_public_ccxt_client environ exchange = do
    cls ← class_of exchange
    let keys =
        if is_alpaca exchange
        then key_pair (set_text (environ "XBT_ALPACA_DATA_KEY"))
            (set_text (environ "XBT_ALPACA_DATA_SECRET"))
        else none
    ok (public_setup cls keys)
