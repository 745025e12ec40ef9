-- ===== src/Exchange.antt =====
-- The exchange adapters of packages/xbt-core/xbt_core/exchanges.
pub mod Base
pub mod Paper
pub mod SessionGuard
pub mod CcxtLive
pub mod CcxtAdapter
pub mod AlpacaData
pub mod CcxtClients
