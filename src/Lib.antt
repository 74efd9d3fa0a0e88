-- ===== src/Lib.antt =====
-- A verification library of the Investment Portfolio Manager backend: the services that keep
-- transactions, realized gains and imported broker transactions in a SQLite database, and the
-- computation of holdings over time from them.
--
-- Base has the names and lemmas that all modules share, over the native numbers: Boolean tests, list
-- and option helpers, and integers. Result has the errors of internal/apperrors as values. Model has the
-- records of internal/model. An identifier is a number, 0 for the empty text, since the code only
-- compares identifiers; a time is a number of nanoseconds since Go's zero time, so that `IsZero`, dates
-- and their order are those of the code; a transaction's type is one of the four that the code knows or
-- another.
--
-- Float64 is an interface of the operations on float64 that the code uses, with no laws. Everything is
-- stated for any instance, however numbers round. Float64.Micro is an instance with
-- six decimals, which the tests compute with.
--
-- Metrics is internal/service/fund_metrics.go with the sums over dividends and realized gains of
-- dividend_service.go and realizedGainLoss_service.go: the loops `replay`, `price_loop`,
-- `dividend_amount_loop`, `dividend_shares_loop` and `gain_loop`. Metrics.AsOf is about what they
-- read, since they stop at the first row after a date.
--
-- History is the on-demand fund history of internal/service/materialized_helpers.go, which values each
-- fund of a portfolio on each day, and calculateFundHistoryOnFly of materialized_service.go on the data
-- that the loader returns. The loop over the days runs on fuel, one round for each day and one to see
-- the end (History.Days). History.Reported is about the days reported.
--
-- Summary is the daily history of portfolios in the same file, with processTransactionsForDate and
-- GetPortfolioHistory of materialized_service.go on the portfolios and the data that are loaded. Its loop
-- runs from the oldest transaction to the present time, with fuel chosen in the same way (Summary.Days,
-- Summary.Reported); Summary.Grouping is about groupTransactionsByPortfolio and
-- groupDividendsByPortfolio, and Summary.Begun about the portfolios that a day includes. A map stands
-- for one order of its iteration, which the results may depend on; the names of portfolios are left out.
--
-- Store is the database. Store.Tables has the tables as lists of rows in the order of insertion.
-- Store.Effects has what each statement that writes does to them, with the constraints of
-- internal/database/migrations/162_base.sql, and Store.Repositories the functions of
-- internal/repository. Store.Monad has a method as a function of a world: the tables, a list of Booleans
-- that says which of the coming statements fail, the clock, the identifiers to draw, and the
-- regenerations asked for. `transact` is BeginTx with the deferred Rollback and the Commit. Store.Rows
-- has the laws of rows by key, Store.Triples the rules that derive what a method leaves from what its
-- statements leave, Store.Reads and Store.Quiet the rules for steps that change no table. An identifier that is drawn may be in
-- use already, in which case the insertion is refused.
--
-- Transactions is internal/service/transaction_service.go: create, update and delete, with the realized
-- gain of a sale. Transactions.Matched states that sales and realized gains match and what each
-- statement does to that, Transactions.Kept derives it for the methods' bodies, Transactions.Atomic for
-- the methods. Transactions.Sales is about sales when no statement fails.
--
-- Dividends is internal/service/dividend_service.go: the reinvestment of a dividend, and create, update
-- and delete in Dividends.Methods, on the table of Store.Dividends. What `SUM` makes of a column is a
-- parameter, since it is the database's. Dividends.Linked has the link from a dividend to the
-- transaction that reinvests it, Dividends.Kept, Dividends.Reinvested and Dividends.Bodies what the
-- bodies leave, Dividends.Atomic the methods, with the table of statuses of Dividends.Status. Dividends.Refused is about two dividends that share a
-- transaction.
--
-- Ibkr is internal/service/ibkr_service.go: allocate an imported transaction to portfolios, undo that,
-- change it, allocate many, ignore and delete; the methods that allocate are in Ibkr.Allocate, and
-- MatchDividend is in Ibkr.Match, with Ibkr.Matched and Matched.Entries about the dividends that it leaves.
-- Ibkr.Settled and Ibkr.Undone, Ibkr.Kept and Ibkr.Allocated, and Ibkr.Atomic and Ibkr.Bulk are built in
-- the same way around the invariant that a transaction is processed exactly when it has allocations.
-- Ibkr.Ready and Ibkr.Reverted are about that invariant when Transactions deletes a transaction.
--
-- Regen is the bookkeeping of background regenerations in internal/service/materialized_service.go:
-- triggerBackgroundRegeneration and the goroutines of runRegenLoop, as a step relation in which requests
-- and goroutines interleave at each lock. Regen.Flight has its invariant, Regen.Coverage what follows.
--
-- Materialized is the cache of fund histories, the table fund_history_materialized of
-- internal/repository/materialized_repository.go. Materialized.Stale is checkStaleData of
-- materialized_service.go, with Stale.Covered and Stale.Fresh; Materialized.Loader is LoadForPortfolios of
-- portfolio_data_loader.go for one portfolio that is named, with its queries, and
-- calculateFundHistoryOnFly on what it loads; Materialized.Regenerate is RegenerateMaterializedTable, and
-- Materialized.Replaced is about its effect. Materialized.Read is GetFundHistoryMaterialized and its
-- formatting; Read.Back, Read.Reported and Read.Refined are about reading back what was written.
-- Materialized.Fallback is GetFundHistoryWithFallback, which answers with the start date for which it
-- calls triggerBackgroundRegeneration, if it does. A name is
-- a number, and names are ordered as their numbers are.
--
-- Yahoo is ParseChart and GetIndicatorForDate of internal/yahoo/yahoo.go. A result is what the JSON has,
-- with timestamps from 1970 on, and an index out of range, where Go panics, is the error out_of_range. Yahoo.Chart compares the loop
-- with a description of the days that are over; Yahoo.Past says that no other day is in a chart.
--
-- Prices is the price updates of internal/service/fund_service.go, UpdateCurrentFundPrice,
-- UpdateHistoricalFundPrice and UpdateAllFundHistory, and GetFundPrice and UpdateFundPrice of
-- developer_service.go, on the table of Store.Prices. What Yahoo Finance answers to a request is a
-- parameter. The loop over the days of buildMissingDatesMap runs on fuel, one round for each day and one
-- to see the end (Prices.Loop). A map of Go is a list of keys and values, and its iteration the order of
-- that list. Prices.Rows, Prices.Reads and Prices.Found are about rows and queries, Prices.Filter about
-- filterMissingPrices, Prices.Current and Prices.Backfill about the methods. What UpdateAllFundHistory
-- returns beside an error is left out.
--
-- Funds is the rest of fund_service.go and portfolio_service.go: create, update and delete of funds,
-- portfolios and portfolio-funds, and the usage check. Store.Funds has their statements, with what a
-- deletion takes along by `CASCADE` and what `RESTRICT` and the foreign keys without a clause refuse. A
-- row that goes in the same cascade does not refuse it, although SQLite, which deletes row by row, may
-- meet the `RESTRICT` of a dividend before the dividend is gone.
-- Funds.Deleted, Funds.Statements and Funds.Referential are about the references that a deletion
-- leaves.
--
-- Csv and Imports are ImportFundPrices and ImportTransactions of
-- internal/service/developer_service.go. Csv is parseCSV, validateCSVHeaders, the columns and the rows,
-- on texts as lists of character codes; the reader of encoding/csv, `time.Parse` and
-- `strconv.ParseFloat` are parameters. Imports has the methods, Imports.Columns what a row says by the names
-- of its columns, Imports.Rules what the proofs share, Imports.Prices and Imports.Transactions what they leave.
--
-- Isin is validateISIN of internal/validation/validation.go, on texts as lists of character codes.
--
-- Not modelled: the HTTP layer, the requests of the clients of other services, configuration, logging,
-- migrations and the other developer and system services, which are input and output around the core;
-- SQL, of which a statement's effect is written out; JSON. The cache of symbols, the listings for
-- responses, the summaries that are read from the materialized table, the import of IBKR reports
-- and the other checks of requests are not modelled either.
pub mod Base
pub mod Float64
pub mod Result
pub mod Model
pub mod Metrics
pub mod History
pub mod Store
pub mod Transactions
pub mod Dividends
pub mod Ibkr
pub mod Regen
pub mod Isin
pub mod Materialized
pub mod Summary
pub mod Yahoo
pub mod Prices
pub mod Funds
pub mod Csv
pub mod Imports
