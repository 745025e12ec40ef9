-- ===== src/Api.antt =====
-- What the HTTP routes of apps/bot-engine/app/api answer.
pub mod Bots
pub mod Symbols
pub mod Requests
pub mod Market
pub mod Signal
use xbottrader.Prelude.{
  Exception, value_error, runtime_error, key_error, type_error, index_error, assertion_error,
  invalid_operation, internal_auth_error, attribute_error, ai_engine_error, equity_data_error, ℕ,
  String,
}

-- the answer of a route: its value, an `HTTPException` with its status and detail, or an exception that
-- no route handles
pub data Response {ℓ} (A : Type ℓ) : Type ℓ where
  answer : A → Response A
  http_error : ℕ → String → Response A
  unhandled : Exception → Response A

-- `str(e)`, as far as the message is fixed
abbrev pub message : Exception → String
message (value_error m) = m
message (runtime_error m) = m
message (key_error m) = m
message (type_error m) = m
message (index_error m) = m
message (assertion_error m) = m
message (invalid_operation m) = m
message (internal_auth_error m) = m
message (attribute_error m) = m
message (ai_engine_error m) = m
message (equity_data_error m) = m
