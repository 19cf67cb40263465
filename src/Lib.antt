-- ===== src/Lib.antt =====
-- The trading core of cats_py, modelled and verified.
--
-- The program collects market features, turns them into trade decisions under a risk constitution, and
-- carries the decisions out, either on a simulated (paper) account or on the venue, where it watches
-- over the open positions. The paths below are from the root of the repository.
--
-- * Domain (src/cats_py/domain/enums.py and models.py): the enumerations, the records that the services
--   exchange, and `AccountState`, the picture of the account that all of them change. A method that
--   changes it returns the new record. `raw` payloads, which no modelled code reads, are left out.
-- * Risk (src/cats_py/risk): `RiskKernel.evaluate` in three blocks (the gates on the account, those on
--   the symbol, the sizing), each statement in its place. Risk/Gates and Risk/Bounds are about it.
-- * Decision (src/cats_py/features, regime, strategies, services/meta_allocator.py and
--   services/decision_engine.py): `enrich`, `detect`, the three strategies, `score`, and
--   `DecisionEngine.decide`, which asks the risk kernel. The strategies enter it through the record
--   `Strategy`. The identifier of a decision and the readings of the clock are arguments.
-- * Exits (src/cats_py/exits/evaluator.py): the reasons for which a position is closed.
-- * Paper (src/cats_py/services/paper_execution.py): the paper account. `apply_decision` and
--   `mark_to_market` return the new state or an exception; its journal is left out.
-- * Execution (src/cats_py/execution): the validator of orders, the router to the venue, the guardian
--   with its heartbeats, the orchestrator of protective stops, and the cycle `handle_order_update`. The
--   venue is a parameter (`Venue`: its answer to a submission, and the text of a decimal); what is sent
--   to it is returned with the result. A heartbeat's task is a sequence of passes, each one given the
--   venue's answer. An `await` is taken as one step: other tasks do not change the account in between.
--   An answer to a submission is a dict, as the client makes it.
-- * User (src/cats_py/services/user_state.py): the events of the user stream. An event that raises leaves
--   what it wrote before, so the account is returned beside the result. How Python reads numbers and
--   times from texts is a parameter (`Parsing`, `IntParsing`, `Timing`).
-- * Reconcile (src/cats_py/services/reconciliation.py and recovery.py): the account rebuilt from the
--   venue's answers, which are arguments, with the comparison before and the counters behind it.
-- * Nofx (src/cats_py/connectors/nofx/normalizers.py and services/universe.py): the answers of the data
--   source, read into the tables of ranks and levels, a feature vector and a list of symbols.
-- * Dataset (src/cats_py/services/paper_dataset.py): the records of the journal, given as lists, joined into
--   rows, with their summary and their aggregates. `float` of a value is a parameter (`Timing`).
-- * Runtime (src/cats_py/services/decision_runtime.py, app/bootstrap.py and config/settings.py): the
--   modes and what they do to the risk constitution, and `run_cycle` from the marking of the account to
--   its result: exits first, then one decision for each symbol with a feature, each of which the paper
--   account follows before the next one is made. The features of the cycle and the reconciler's result
--   are arguments; the random identifiers and the clock's readings too, a function of the pass. How a
--   feature is built through the cache of payloads stands in Runtime/Cache and Runtime/Fetch, where a
--   call of the cache is split at the request, so that stores of other tasks may come in between.
--   The features are values: what `enrich` writes into one is lost after its pass, which matters only if
--   a symbol is configured twice. Runtime/Trades has the loop as a relation.
--
-- Numbers. `float` and `Decimal` are read through the interface `Number` (Num/Order): arithmetic,
-- literals and Boolean comparisons, on which nothing is assumed but, where a theorem says so, that the
-- order is strict (`IsStrictOrder`), which the comparison of floats is, NaN included. To order a Decimal
-- NaN raises `InvalidOperation` in Python. The paper account meets one if a price, a funding rate or a
-- notional from outside is NaN, and raises there (`compared` in Paper/State); apart from that the Decimals of the
-- accounts, the orders and the rules are taken to be numbers, and the leverage of a fill to be finite.
-- Rounding and conversions are the interfaces `Decimal`, `Float` and `Conversion` (Num/Convert).
-- Num/Fixed and Num/Convert give an instance, decimal fixed point with eight places, on which all
-- definitions run; the tests use it. A division by zero that the code can reach is written out where the
-- code divides. Overflow of `quantize` is not modelled.
-- Time is a natural number of microseconds. An exception is a value (Result), an early return too (Flow).
-- A `dict` is the list of its entries in the order of insertion (Dict). No definition uses fuel: every
-- loop of the modelled code goes over a finite list.
--
-- Not modelled: the connectors to the venue and to the data source, the applications, the reading of
-- configuration files, storage, logging and event bus, which are input and output; the journal; the
-- parsing of the venue's symbol rules; and the interleaving of the requests of a cycle.
pub mod Prelude
pub mod Num
pub mod Result
pub mod Raise
pub mod Dict
pub mod Domain
pub mod Risk
pub mod Json
pub mod Decision
pub mod Exits
pub mod Paper
pub mod Runtime
pub mod Dataset
pub mod User
pub mod Nofx
pub mod Reconcile
pub mod Execution
pub mod Tests
