-- ===== src/Lib.antt =====
-- The IoT metrics service: devices report a temperature and a battery level over REST or gRPC, the
-- service stores them in SQLite, compares them with the thresholds of the device and stores alerts
-- that a client reads in pages.
--
-- The files and the code that they model (paths from the root of the repository):
--   Go/*                    what the program uses of Go: float64 and its arithmetic, time, errors,
--                           trimming, printing, maps, base64 and ServeMux. `Outcome` is how a call ends: with a
--                           value, with an error, or by a panic.
--   Http/Validator          http/req_validator.go
--   Http/Status, Response   http/error.go: error values, REST errors and Connect errors
--   Http/RateLimit          http/rate_limit.go
--   Http/Log, Recover       http/log.go and http/recover.go, on a state of lines beside the handler's
--   Http/Server             http/server.go up to `ListenAndServe`, and `Stop`
--   Connect                 proto/gen/iot/v1/iotv1connect/service.connect.go
--   Device/Types, Proto     device/repository.go, device/echo_handler.go and the messages of
--                           proto/gen/iot/v1/service.pb.go
--   Device/Validation       device/validation.go; Laws says what is accepted without the code's
--                           words, Rejection how the rest is answered
--   Device/PageToken        device/pagination.go
--   Device/Repository       the interface `device.Repository` and what its clients may rely on
--   Device/Service          device/service.go: `configure_device`, `record_metric`, `get_device_alerts`
--   Device/Handlers         device/connect_handler.go, device/echo_handler.go, device/device_id.go
--   Sqlite/Tables           sqlite/migrations/0001_tables.up.sql and sqlite/sqlc/models.go
--   Sqlite/Queries          sqlite/sqlc/device.sql.go: each statement as a function on the tables
--   Sqlite/Repository       sqlite/repository.go, with its pages (Paging, Listing, Following, Walk), its
--                           invariant (Valid) and the interface that it keeps (Lawful, Reading)
--   Sqlite/Conn             sqlite/conn.go: opening the database and waiting for it
--   Sqlite/Migrate          sqlite/migrate.go
--   Rlimit                  rlimit/rate_limiter.go in one step for each call; Shared is the same with
--                           its pointers, in the steps that its goroutines take
--   Log, Config             log/logger.go and config/config.go
--   Main                    what main.go makes of the configuration; Stacks is the middleware around
--                           the handlers, and Run is `run` to the end of the program
--   Stress                  cmd/stress/worker_pool.go as a step relation, with its end (Drain), and
--                           the flags and jobs of cmd/stress/main.go
--   System                  the service, the handlers and the middleware over the SQLite repository;
--                           Raised goes from recording a metric to reading its alerts
--   Tests                   concrete inputs
--
-- How the parts interact: a handler turns a request into one of package device and calls the
-- service; the service checks it, calls the repository and logs; the repository runs statements on
-- the tables. Each call takes a state and gives the state that it leaves, on every ending. The
-- service's state is the repository's and its log; a database also holds the failures that its
-- environment has in store, one entry for each coming statement, so that every theorem about all
-- databases is one about all failures. Errors are values that wrap others, and `errors.Is` and
-- `errors.As` look through them.
--
-- Bounds: battery levels are int32 values in int64 columns; the conversion back wraps, and the
-- theorems that need it say that a value fits. `int64(Size + 1)` wraps as well; the service asks
-- for at most 250 items. A walk along page tokens has fuel: one page more than there are rows is
-- enough, since each page but the last takes at least one row. A pool that is being closed has a
-- number of steps left that every step lowers. Rounding a float64 halves on fuel, more than any product of finite
-- values takes.
--
-- Parameters: `encoding/json` at the page token (it returns, and what it wrote it reads back), and its
-- error on a page of alerts, which REST answers with,
-- `Bind` of package echo, the decoders of the configuration, the answers of the SQLite driver to
-- `Open` and of package migrate to `Migrate`, the order in which Go ranges over a map of violations,
-- `golang.org/x/time/rate`, and what the packages echo, connect, grpchealth and grpcreflect do with
-- the functions that they are given. A theorem that needs their behaviour states it as a hypothesis.
--
-- Not modelled: the sign of zero (SQLite and Go agree on it in every comparison), the text columns
-- beyond equality, ids beyond int64, the location of a time, which is UTC wherever the program
-- reads it, and the contexts of calls but for their failures. A request's own cancellation shows as a failed
-- statement. In the worker pool the report of an error and the `Done` after it are one step. Left
-- out for being library calls: serving connections, the command line, the loops that queue the stress test's jobs, and the generated messages but
-- for their fields.
pub mod Base
pub mod Go
pub mod Http
pub mod Device
pub mod Sqlite
pub mod Rlimit
pub mod Log
pub mod Config
pub mod Main
pub mod Stress
pub mod System
pub mod Tests
pub mod Connect
