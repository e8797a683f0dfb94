-- ===== src/Lib.antt =====
-- quant-api-gateway: a FastAPI gateway between trading-strategy services, execution and data engines,
-- and a dashboard. Strategies post a daily report, which goes to PostgreSQL; read endpoints answer
-- from PostgreSQL through a Redis cache; and requests to the engines are proxied.
--
-- The parts, and the files that model them (paths of the program from the repository's root):
--
-- Prelude: the names shared by all files; Boolean tests on numbers and texts, Result.
-- Json, Http: the values of json.loads; requests, responses, exceptions and what an httpx call ends
--   with. Effects: the exceptions of src/services/errors.py and calls that may raise and change a
--   state, with `catch` for try/except. A state change before a raise stays.
-- Routing: route tables, tried in the order of their decorators.
-- Proxy: src/api/v2/engines. Execution is execution.py (`_is_typed_envelope`,
--   `_passthrough_or_bad_gateway`, `_proxy`, `_proxy_sse` with its generator; its children Laws,
--   Failures, Sse, Calls and Routes are about what it answers, raises, releases, sends and
--   reaches). Readonly is the GET proxy that orderbook.py, crypto.py and market_data.py each write
--   out; Orderbook, Crypto and MarketData are their routes, and Orderbook has its own stream.
--   Engines is src/api/v2/router.py, the four engines under their names.
-- Registry: src/schemas/registry.py and src/services/strategy_registry.py, with the module's
--   global; Load is `load_registry` and the start-up in src/main.py up to the registry, Validation
--   the rules of strategies.json.
-- Cache: src/services/cache.py (`get_cached`, `set_cached`, `invalidate_key`; Cache/Pattern is
--   `invalidate_pattern`) and src/services/cache_invalidator.py (Cache/Invalidator). Cache/Laws and
--   Cache/Ends say what Redis documents and what the SCAN loop then does.
-- Api: src/api/v1 and the second version's src/api/v2/engines/backtest.py and portfolio.py. The
--   world of a handler is the cache, the databases and the registry; `cache_aside` is the cached
--   read that the handlers share. Report is strategy_report.py, Backtest is backtest.py, Portfolio
--   is portfolio.py, performance.py and the registry reads of strategies.py, Engine is the second
--   version's portfolio.py. EquityCurve is the curve endpoint of both versions. Key, Admin and
--   Ingest are dependencies.py, admin.py and ingest.py; the children of Ingest say how a push ends
--   and what the cache holds after. The service layer is an interface of the read endpoints (the
--   two records Service); Report/Ingested fills that of the reports with the model of the report
--   service, and is about a request after a push.
-- Ingestion: src/services/ingestion.py and `persist_report` of
--   src/services/strategy_report_service.py: `_daily_return`, `_payload_to_row`,
--   `persist_daily_report`; `put_row` and `put_report` are the two upserts.
-- Aggregator: src/services/aggregator.py, over Numbers: floats and decimals with their operations
--   as parameters. Weighted and Drawdown are about the inputs that count and the drawdown.
-- Snapshot: src/services/snapshot_writer.py: `extract_equity_curve`, `compute_aggregates` and
--   `maybe_write_snapshot`, over the two statements of asyncpg. Rounds and Laws are about the test
--   that the round is complete, Duplicates about a registry in which an id stands twice, Totals and
--   Writes about what is written, Keeps about what stays.
-- Effects/Laws: what an answer says of the calls before it, and what a chain of calls keeps.
-- StrategyReports: the reads of src/services/strategy_report_service.py. Dates is the window of a
--   query, Rows what the SELECT statements say of the tables, Items their rows and the items of an
--   answer, Reads the four functions with the validators of src/schemas/strategy_report.py that
--   they meet; Ordered says what ORDER BY time promises, and Trades, Walk, Latest and Benchmark are
--   about their answers.
-- Formatting: src/utils/formatting.py on decimals of a sign, a coefficient and a number of places;
--   Digits, Rounding and Currency are about what a text says of its number.
-- PortfolioService: src/services/portfolio.py (Snapshots, Metrics and Curves; Moves is about the
--   metrics), with `build_equity_curve_from_rows` of src/services/snapshot_writer.py.
-- PerformanceService: src/services/performance.py; its child Laws relates the two services' curves.
-- Schemas: Pydantic's validation of a class that is declared by its fields (`read`), and in Typed,
--   Again and Laws what it makes of a document (extra keys are ignored in every class, as
--   _ReportBase and Pydantic's default have it); Report is src/schemas/strategy_report.py in those
--   terms, its child Page a page of trades as it is dumped, and Payload the parse of a stored
--   report in src/services/strategy_report_service.py and src/services/ingestion.py.
-- Clients: the connections that are created at first use and held in a global, those of src/db and
--   of `_get_client` in src/api/v2/engines; its child Lifespan is `lifespan` of src/main.py, which
--   opens some and closes all.
-- Settings: src/config.py, the fields of the settings and the cached `get_settings`; Valid and Laws
--   are about the settings that it keeps, and Api/Key/Required what follows for the API key.
-- Catalog: src/api/v2/engines/catalog.py. RequestIds: the middleware of src/main.py and the
--   formatter of src/logging_config.py.
-- DbPools: `get_pool` and `close_pool` of src/db/postgres.py and src/db/csm_set_postgres.py, whose
--   tasks interleave at their awaits, as a step relation.
-- Tests: a Redis, a pandas and a database in memory, and the theorems at concrete inputs.
--
-- Parameters, and what is assumed of them: httpx is a function from a call to its outcome; the read
--   of a streamed response may fail, and its close does not. Redis is a record of its four
--   commands, each of which may fail; IsLawful is what its documentation says of GET, SETEX, DELETE
--   and SCAN (a key that is there throughout an iteration is returned), ScanEnds that an iteration
--   comes back to cursor 0. asyncpg is, for ingestion, a record with the two inserts and
--   `transaction`; IsAtomic says that a transaction keeps all or nothing. For the snapshot writer
--   it is the query of a day and the upsert; IsQuery says that the query returns as many rows as
--   there are strategies with one, and ReturnsAll that each of these is among them. For the reports
--   ReadsTrades and ReadsReports say that a statement returns what Rows says of its table.
--   secrets.compare_digest is CompareDigest. pandas is its sort and its join, which may fail, and
--   is_point says which points an EquityPoint takes. Where an endpoint validates a model of its
--   own, Pydantic's text forms are a pair dump and parse, and the validation is a function that may
--   fail; in Schemas the validation of a class is defined, and only the scalar types are
--   parameters: Scalars reads and dumps them, and Pydantic says that what is dumped is read back.
--   Whether a connection can be opened and closed is Outside of Clients. Conversions are Pydantic's
--   of a text to a number, and the Scalars of Registry/Validation its readings of a decimal and a
--   Boolean.
--
-- Bounds and fuel: the SCAN loop takes fuel, and one round more than the rank of cursor 0 ends it.
--   Numbers of rows, keys, points and chunks are not bounded. Times are microseconds on the native
--   natural numbers; weights are in units of 0.0001. The numbers that the database holds are
--   finite. Dates are ordinals, and a date after 9999-12-31 does not exist. Decimals have the
--   default precision of 28 digits: rounding beyond it raises, products and differences are exact
--   below it. The client of the trade log takes fuel, and more requests than there are trades are
--   enough.
--
-- Not modelled: the rules of the fields of a payload other than its report, the configuration of
--   logging, the health endpoint, the constants and stubs of signals.py, and the assembly of
--   version 1's router. Calls that only log are left out, but for the request ids. But for the two
--   pools, requests run one at a time. ORDER BY time leaves the order of trades of one time to the
--   database, which may choose another for each page.
pub mod Prelude
pub mod Json
pub mod Http
pub mod Effects
pub mod Registry
pub mod Cache
pub mod Numbers
pub mod Aggregator
pub mod Routing
pub mod Proxy
pub mod Api
pub mod Ingestion
pub mod Snapshot
pub mod StrategyReports
pub mod Formatting
pub mod PortfolioService
pub mod PerformanceService
pub mod DbPools
pub mod Clients
pub mod Catalog
pub mod RequestIds
pub mod Schemas
pub mod Settings
pub mod Tests
