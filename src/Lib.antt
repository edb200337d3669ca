-- ===== src/Lib.antt =====
-- i-am-not-a-trader-bot: a bot that trades five-minute up/down markets on BTC, by variants of three
-- rule-sets, in shadow mode until a statistical gate funds a variant.
--
-- The program's parts, and the modules that model them:
--
--   engine/signals.py     Signals     what a rule-set sees, and its assembly from feeds
--   engine/market_feed.py MarketFeed  books, spot feed, and the snapshot of a tick
--   engine/config.py      Config      the configuration, its variants, the freeze of live params;
--                         Validation has the ranges that load_config checks, Rules rules_hash
--   engine/rulesets.py    Rulesets    momentum_follow, contrarian_fade, skew_filter, evaluate
--   engine/ledger.py      Ledger      the tables (Rows), the writes (Writes), the reads (Reads)
--   engine/risk.py        Risk        the RiskManager: Sizing, and Manager with check
--   engine/executor.py    Executor    ShadowExecutor and ResolutionPoller
--   engine/main.py        Engine      run_once, the cadence, startup
--                         Loop        _on_bucket_rollover and run_forever
--                         Loop.Wiring the two with the control processor and the evolution
--   engine/control.py     Control     the allocation requests of the agents; Control.Lessons has the
--                         appends to STRATEGY.md and the pass over all requests
--   engine/evolution.py   Evolution   the splits and their cases (Splits, Samples, Proposals), the
--                         ids and the spawning of challengers (Ids, Spawning), the review of
--                         promotions (Notices, Promotions) over the files (State). Machine is the
--                         promotion machine by itself, without files
--   engine/live_client.py LiveClient  LiveExecutor, and Reconcile for reconcile_on_startup
--   analytics/report.py   Report      the funding gate, the kill switch, the paired comparison;
--                         Wilson and Stats have the statistics of a variant, Entries the report
--
-- Definitions carry the names of the functions they model, without a leading underscore. Inside a
-- component, a child module has either definitions or what is proved about them. Prelude has the
-- shared lists, tests, Python results and calls; Float the numbers; Examples concrete data, with
-- the tests and the examples of the theorems.
--
-- How the parts interact. A tick (Engine.run_once) asks the RiskManager for a halt, takes a
-- snapshot, and evaluates each active variant: the rule-set decides, Risk.check approves or
-- rejects, the row goes to the ledger's evaluations, and an approval goes to the executor, which
-- writes the trade. At each new bucket the loop polls the outcomes of closed markets, and calls
-- the report, the control processor and the evolution. The evolution proposes challengers from the
-- evaluations and the resolved trades, and moves them towards live money with the report's gate
-- and comparison; it and the control processor rewrite the configuration file. The ledger is the one
-- shared state: each component's operation is a call on it (Prelude.Py.Exec), which returns or
-- raises and keeps what it wrote before it raised.
--
-- Numbers. A Python float is an element of a type with the operations the code uses (Float.Defs):
-- comparisons, arithmetic, abs, round, floor division. Theorems that need the order state it as
-- the hypothesis IsOrdered (Float.Laws), which the fixed-point numbers of Float.Micros satisfy; they
-- carry the examples. The laws hold of NaN too, and none is a law of arithmetic. Timestamps are
-- floats as in the code. Division raises where Python raises ZeroDivisionError.
--
-- State. A SQLite table is the list of its rows in the order of insertion, with ids as INTEGER PRIMARY
-- KEY gives them; a UNIQUE constraint is a test before the insertion, which raises. CHECK constraints
-- are data types. The STOP file is what each look at it finds, in order; the market state, Gamma,
-- the venue and the clock are arguments of the calls that use them.
--
-- Recursion is structural: over variants, rows, orders, markets, characters, turns. run_turns makes
-- a given number of turns of the loop, which itself never ends. Only the digits of a number run on
-- fuel, the number and one more, which the reading back of an id shows to be enough.
--
-- Files of the evolution. The configuration file holds a configuration whose fields have their types,
-- or none. A notice, which an agent may edit, is no JSON, no object, or has for each field that the
-- code reads a JSON value or none. An id holds no line break. The variants of the raw document are found by their ids, which
-- load_config has found to differ. Texts are in ASCII (Prelude.Texts has Python's operations on
-- them). What an agent or the operator does to the files between two calls is given by the files
-- that each call meets.
--
-- Where the model is narrower than the code. Params hold numbers: load_config accepts any value there,
-- and an entry_window_sec_min that is no number can make the cadence of the loop raise TypeError. A
-- file that load_config refuses is refused with ConfigError: other errors of yaml.safe_load, which the
-- code does not catch, are not modelled. SQLite raises for the constraints only, and no NaN is written
-- to a NOT NULL column. GammaClient.resolve_outcome does not raise. A sum of floats is a left fold of
-- additions, without the compensation of Python 3.12.
--
-- Not modelled: reading YAML, the types of its fields and the fields it may have (load_config is
-- given by its result at startup, and its ranges by Config.Validation), log lines and their
-- redaction, credentials and the vendor SDK, network clients, rendering and files of the report.
-- SHA-256, the calendar date of a time, numpy, and math and statistics of the standard library are
-- parameters. Of engine/evolution.py, the texts that only the operator reads are left out: the prose,
-- the difference of params and the case in a notice, labels and reasons.
-- A tick is given what MarketState.snapshot returns or raises, which MarketFeed models from the
-- replies of the requests.
pub mod Prelude
pub mod Float
pub mod Signals
pub mod Config
pub mod MarketFeed
pub mod Rulesets
pub mod Ledger
pub mod Risk
pub mod Executor
pub mod Engine
pub mod Loop
pub mod Control
pub mod Evolution
pub mod LiveClient
pub mod Report
mod Examples
