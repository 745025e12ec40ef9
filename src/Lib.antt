-- ===== src/Lib.antt =====
-- xbottrader: a trading-bot platform. This library models its Python core and proves what makes it
-- correct. Paths are from the repository's root.
--
-- The program. A strategy (packages/xbt-core/xbt_core/strategies) turns market bars into order
-- intents and keeps its memory in a per-bot state. The supervisor (apps/bot-engine/app/runtime) sends
-- the intents to an exchange adapter (packages/xbt-core/xbt_core/exchanges), and books the fills in a
-- ledger; a guard rejects orders while the market (packages/xbt-core/xbt_core/market) is closed. A
-- backtest (apps/ai-engine/app/backtest) replays the same strategy on the same paper exchange.
--
-- Files.
-- - Prelude: names of the library, Boolean tests on numbers, list lemmas, and `Result`, the value of
--   a call that may raise a Python exception.
-- - Decimal: `decimal.Decimal` as a record of operations, an instance argument of all that computes
--   with prices. The operations round to the digits of Python's context, so no law of them is built
--   in: the records IsOrdered, HasSigns and IsExact name the laws that theorems ask for. A comparison
--   that a NaN of a rule can reach raises as in Python (RuleEngine/Conditions, and Conditions/Truth for
--   numbers); the other comparisons are of prices and amounts, which are none. The laws hold of numbers
--   that are no NaN, where no result underflows, and, for IsExact, where no sum, difference
--   or product needs more digits than the context has. Decimal/Whole is an instance with all of them.
-- - Strategy/Base: strategies/base.py. Strategy/Runs: a strategy over a list of inputs, and
--   refinement of a step relation. Strategy/Window and Strategy/Position: parts that strategies
--   share. Strategy/Dca, Grid, MaCrossover, Momentum, AiSignal, RuleEngine: the file of that name
--   under strategies/ or strategies/python/. `__post_init__` is the function named after the class
--   in lower case, and `on_bar` keeps its name.
--   Strategy/Value: the dicts and lists that parameters are read from; RuleEngine/Parse and
--   Momentum/Params read them.
-- - Config/Schema: packages/xbt-core/xbt_core/strategy_config.py, each pydantic model as a record with one
--   check of its constraints and validators. Config/Dump: the dicts of a model, and the parameters
--   that it means; Config/Accepted and Built prove that an accepted configuration builds.
--   Config/Registry and Factory: strategies/python_registry.py and strategies/factory.py; Config/Keys is
--   about the registry.
-- - Auth: packages/xbt-core/xbt_core/internal_auth.py, with the digests as parameters; Auth/Signed.
-- - Keys: apps/bot-engine/app/security/keys.py, with the cipher as a parameter; Keys/Envelope.
-- - Exchange/Base: exchanges/base.py; an adapter is a record of operations over its state, and random
--   ids and the clock are a parameter, `Draws`. Exchange/Paper: exchanges/paper.py, method by method;
--   Paper/Book, Matching, Calls, Ids and Once are its proofs. Exchange/SessionGuard:
--   exchanges/session_guard.py, over any adapter.
--   Exchange/CcxtLive: apps/bot-engine/app/exchanges/ccxt_live.py, the polled bars and the credentials;
--   CcxtLive/Increasing. Exchange/CcxtAdapter: exchanges/ccxt_adapter.py there, the orders and the fills;
--   CcxtAdapter/Reading and Placing are its two halves, Orders and Fills their proofs. Exchange/AlpacaData: exchanges/alpaca_data.py there;
--   AlpacaData/Lookback counts the weekdays of the window. Exchange/CcxtClients: how exchanges/ccxt_live.py
--   there sets a client up.
-- - Market/Session: market/session.py, with the time-zone database as a parameter; Market/Opening: the
--   search for the next opening.
-- - Runtime/Ledger, Trading and Supervisor: runtime/supervisor.py, the ledger, the trading of one bar,
--   and the loop of a bot with its events; Supervisor/Life is about its whole run,
--   Supervisor/LossLimit about one bar. Runtime/Router: runtime/router.py, over any adapter, with its
--   rows and events as a log.
--   Runtime/Control: start, stop, kill and kill_all of runtime/supervisor.py, over all bots, as whole
--   calls and, for interleavings, in their phases; Control/KillAll.
--   Runtime/Companion: runtime/ai_companion.py, one turn of its loop at a time, with what the clock, the
--   AI engine and the publisher answer as inputs; Companion/Budget and Numbering.
-- - Api/Bots: apps/bot-engine/app/api/bots.py, the routes over the bots of Runtime/Control; Bots/Isolation
--   and Changes are about the bots of one user among those of all, Bots/Alone, Users and Gate about the routes.
--   Api/Symbols and Requests: the patterns and the request models of api/schemas.py in both engines;
--   Symbols/Repeats and Grammar, Requests/Parity. Api/Signal: the route `strategy_signal` of
--   apps/ai-engine/app/api/routes.py. Api/Market: apps/bot-engine/app/api/market.py.
-- - Clients/AiEngine: apps/bot-engine/app/clients/ai_engine.py, with the transport as a parameter;
--   AiEngine/Consult puts it against Api/Signal. Http: an HTTP answer.
-- - Llm/Author and Llm/Signal: apps/ai-engine/app/llm/author.py and signal.py, with the language model as a
--   parameter; Author/Repair and Signal/Action. Llm/Copilot: copilot.py beside them, with its route.
-- - Launch/Production: apps/bot-engine/app/launchers/production.py, with the database, the cipher and the
--   clients' factories as parameters; Production/Gate. Launch/Demo: launchers/demo_paper.py; Demo/Walk.
-- - Backtest/Engine: backtest/engine.py; Backtest/Engine/Parity compares it with Runtime. Backtest/Run: the
--   backtest of a configuration, from the request to the answer; Run/Returns and Answered.
--
-- Conventions. Timestamps are epoch milliseconds and natural numbers; a comparison of a difference
-- with a bound is written as one of sums. Periods, levels and minutes are natural numbers, which the
-- code's own checks make of every int below 1. `state.custom` is a record of the keys that the one
-- strategy of a state uses. A call that raises returns the exception alone: the state of a strategy
-- that has raised is not read again. A text made of a fixed prefix and a value is kept as the two.
-- Loops are over lists, but for the search of the next opening and the repairs of the author, whose
-- bounds of 366 days and 3 calls are the code's own.
--
-- Not modelled. Exceptions of the publisher in start, stop and kill, and what the routes answer while
-- another coroutine runs within stop or kill. The wiring of
-- the applications, the database schema and its queries, the event publisher, the libraries of
-- exchanges and of the language model, the gateway and the web pages are input and output
-- around this core.
pub mod Prelude
pub mod Http
pub mod Decimal
pub mod Strategy
pub mod Fixtures
pub mod Config
pub mod Exchange
pub mod Llm
pub mod Auth
pub mod Keys
pub mod Market
pub mod Runtime
pub mod Launch
pub mod Backtest
pub mod Api
pub mod Clients
