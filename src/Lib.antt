-- ===== src/Lib.antt =====
-- The loyalty server gophermart: users upload order numbers, an external accrual system awards points
-- for them, and users spend the points by withdrawals. The development models the core of the server
-- and what its operations promise together.
--
-- Parts and files, from the bottom up:
-- - Luhn, Uint, Password, Retry: internal/common/utils/common.go. `ValidLuhn`, `checksumLuhn`,
--   `HashPass` and `RetryAction`, under their names in snake case. The loop of `checksumLuhn` is
--   recursion on the accessibility of the number, so it has no fuel; its uint64 sum wraps at 2^64.
--   Uint is what `strconv.ParseUint` and `strconv.FormatUint` document: user and order numbers pass
--   through text.
-- - Store: internal/common/store/store.go, the values that the parts exchange. A `decimal.Decimal` is
--   its rounding to hundredths and the side of that rounding on which it lies, which is all that a
--   comparison with a decimal(19,2) column and a store into one depend on. Amounts of balances, which
--   are always read from a column, are integers of hundredths.
-- - Tables: internal/gophermart/app/migrations and the SQL constants of
--   internal/common/store/pg/pg.go. Each statement is a function on the four tables, with the keys,
--   the enumeration and the ranges of the columns as the errors that it can return. A name loses the
--   spaces beyond the length of its column.
-- - Conn: the connection. A `World` is the tables and a list of faults, one for each round trip to
--   come: served, dropped before the server has it, or not answered after it. A transaction is a
--   state passing function on its own view of the tables, with the deferred rollback.
-- - PgStore, Batch: the methods of `PgStore`, on that connection; PgStore/Start is `Start`, two calls
--   of `RetryAction`. A statement of a transaction is `tx_query`; `and_then` and `>>=` are the early
--   returns. `chunks` cuts the slice as the loop of `UpdateOrdersBalancesBatch` does; its fuel is the
--   number of orders, which is enough since each round takes at least one.
-- - Service: internal/gophermart/service/service.go, the methods of `HandleService`.
-- - Pool: internal/common/httpclientpool. `run_job` is what a worker makes of one exchange with the
--   accrual system. Pool/Workers is `SendOrdersToAccrual` of the service with `sendRun`, `StartPool`
--   and `workerPlain`: the goroutines, the two channels and the context are a `PoolState`, and a
--   `Step` is what one goroutine does next. A worker that has returned stays in the list as `left`,
--   so that the capacity of the channels is read from its length.
-- - Accrual: internal/gophermart/accrual/accrual.go. `collect` is the loop of `SendOrdersToAccrual`
--   over the results as they are delivered, `main_accrual_round` one round of `mainAccrual`, `sleep_time` the pause before the next in 64 bits,
--   and Accrual/Schedules is about the order of delivery.
-- - Handlers: internal/gophermart/handlers/handlers.go, each handler as a function from a request and
--   a world to a response and a world.
-- - Session: `createToken` and `newRouter` of the same file, with the guard of `jwtauth` before the
--   handlers that need a user.
-- - Middleware: `withLogging` and `gzipMiddleware` of the same file, with the writers of
--   internal/gophermart/handlers/middleware/httplogs and httpgzip. A `Wire` is what `net/http` sends.
-- - Migrations: `migrate` of internal/gophermart/app/migrations.go and the statements of the files
--   under internal/gophermart/app/migrations, on a `Database` with the tables that there are.
-- - Signature: internal/common/middleware/hmacsha256 and
--   internal/gophermart/handlers/middleware/httphmacsha256, which no handler of this server uses. A
--   writer or reader carries what it has hashed so far.
-- - Faccrual: cmd/faccrual/faccrual.go, the stand-in for the accrual system, and in Faccrual/Client a
--   worker of the client pool that asks it.
-- - Ledger: what the tables promise together. `IsBalanced` relates balances, withdrawals and orders;
--   `IsSound` adds that order numbers differ and open orders have no points. Ledger/Accounts is the
--   abstract view, what each user has and has spent, with the moves that are allowed on it.
-- - Config: internal/gophermart/config/config.go, from the parsed flags, the environment and the
--   random source to the settings.
-- - Wiring: internal/gophermart/app/app.go, internal/common/utils/fxadapter.go, and the `Start` and
--   `Stop` of each part; `App` has what the invoked functions set and which parts run. Wiring/Phases
--   states what fx documents of the hooks, and a run of fx is any sequence of such moves.
-- - System: the routes of `newRouter` with their handlers, and what they leave alone. System/Race has one
--   overlap of two withdrawals, System/Overdraw a withdrawal of a negative sum.
-- - Concurrent: the transactions of the server statement by statement. `Db` has what is committed, a
--   `Session` for each connection in `InsertWithdraw`, and the batch of `mainAccrual`; `Step` is one
--   statement, a commit, a rollback at any point, a handler that makes no transaction, or a move of
--   `mainAccrual`. What it assumes of PostgreSQL is its default level: a statement sees what is
--   committed before it and what its own transaction has written, and a row that is written is locked
--   until that transaction ends, so that another that writes it waits. What `now()` returns is left
--   open. Concurrent/Versions, Balances and Orders have what written rows come to over the committed
--   ones, Statements, Calls and Funds what each statement keeps, Invariant and Rounds what holds of a `Db`,
--   Books, Alone and Accounts what follows, and Sequence the run of one call alone; PgStore/Statements has the
--   statements of a call that commits.
-- - Examples, Luhn/Tests: runs on sample data.
--
-- Parameters: `Hmac` is `crypto/hmac` over SHA-256, of which only the length of a code is used;
-- `Codec` is `encoding/json` with the decimal library, and the signing of tokens, which Session
-- instantiates by `Jwt` (golang-jwt and jwtauth); `Gzip` is `compress/gzip`, whose reader reads back
-- what its writer put out; `Json` is `encoding/json` between the stand-in and the client; `Goose` is
-- pressly/goose, which applies the migrations that are not applied and takes the applied ones back;
-- `decode` is the reading of an accrual answer, which `IsHonest` restricts to what the accrual
-- system's specification says. `main_accrual_round` takes what the client pool
-- delivers as an argument; in Concurrent it is what a finished run of the goroutines has delivered.
--
-- Not modelled: in Concurrent the handlers that make no transaction, and the first part of a round, are
-- one step. In Wiring a part has started or not, and what it does in between is in the other files. Time
-- is a number that the tables and the tokens read, and the waits of `mainAccrual` and the pauses of
-- `RetryAction` are values, so the passing of time and timeouts are left out; so are the flag package,
-- the building of the logger and the transport of the HTTP clients, which are calls of libraries. The text of
-- log entries is left out, as is the text of wrapped errors.
pub mod Prelude
pub mod Luhn
pub mod Uint
pub mod Password
pub mod Config
pub mod Retry
pub mod Store
pub mod Tables
pub mod Conn
pub mod PgStore
pub mod Batch
pub mod Ledger
pub mod Service
pub mod Pool
pub mod Accrual
pub mod Handlers
pub mod Concurrent
pub mod Examples
pub mod Faccrual
pub mod Middleware
pub mod Migrations
pub mod Session
pub mod Signature
pub mod System
pub mod Wiring
