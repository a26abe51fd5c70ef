-- ===== src/Main/Run.antt =====
-- main.go: `run` from the configuration to the end of the server, and the exit of the program. What the
-- file system, the database, the network and the signals do are parameters, in the record `Env`.
pub mod Laws
use iot_metrics.Base.{ℕ, String, Bool, List, [], ◌∷◌, Option, none, some, if◌then◌else◌}
use iot_metrics.Config.{Config, RateLimit, Loaded, loaded, failed, exited, load}
use iot_metrics.Go.Errors.{Error, canceled, wrapped}
use iot_metrics.Http.Server.{Context, stop}
use iot_metrics.Log.{
  Logger, Line, write, new_logger, level_info, level_error, number_value, error_value,
}
use iot_metrics.Main.{logger_of}
use iot_metrics.Sqlite.Conn.{Opening, open_db}
use iot_metrics.Sqlite.Migrate.{Migrating, migrate}

-- What `run` waits for: `Serve` returns an error, or nil, while a signal has come or not; or a signal comes.
pub data Ending : Type 0 where
  served : Option Error → Bool → Ending
  interrupted : Ending

pub record Env : Type 0 where
  pub config_file : String
  pub open_config : String → Option Error
  pub decode : String → Config → Option Error × Config
  pub parse_env : Config → Option Error × Config
  pub opening : Opening
  pub migrating : Migrating
  pub ending : Ending
  -- `Shutdown` of the HTTP server
  pub shutdown : Context → Option Error

-- What `run` returns, with the lines that it logged, unless `Load` exits the program.
pub data Ended : Type 0 where
  returned : Option Error → List Line → Ended
  exited_early : List String → Ended

-- The context of the program, which a signal cancels.
unfoldable pub context_of : Ending → Context
context_of (served e signalled) = record {
  done = if signalled then some canceled else none;
  seconds_left = none;
}
context_of interrupted = record { done = some canceled; seconds_left = none }

-- What `run` returns at the end of its `select`.
unfoldable pub answer : Ending → Option Error
answer (served none signalled) = none
answer (served (some e) signalled) = some (wrapped "start server" e)
answer interrupted = none

-- What the deferred function logs of stopping the server.
abbrev stop_lines : Logger → Option Error → List Line → List Line
stop_lines logger (some e) lines =
    write logger level_error "failed to stop server" (("error", error_value e) ∷ []) lines
stop_lines logger none lines = write logger level_info "server stopped" [] lines

abbrev limit_lines : Option RateLimit → Logger → List Line → List Line
limit_lines none logger lines = lines
limit_lines (some rl) logger lines = write logger level_info "device rate limiter enabled" [] lines

-- `run` behind the migration.
unfoldable pub serve_config : Env → Config → Logger → List Line → Ended
unfolding context_of answer
serve_config env cfg logger lines = returned (answer env.ending) (
    stop_lines logger (stop env.shutdown (context_of env.ending)) (
      write logger level_info "server listening" (("port", number_value cfg.port) ∷ [])
        (limit_lines cfg.device_rate_limit logger lines)))

-- `run` behind the opening of the database, by what `Migrate` returns.
abbrev pub after_migrate : Env → Config → Logger → List Line → Option Error → Ended
after_migrate env cfg logger lines (some e) = returned (some (wrapped "migrate sqlite" e)) lines
after_migrate env cfg logger lines none =
    serve_config env cfg logger (write logger level_info "migrated sqlite database" [] lines)

-- `run` behind the configuration, by what `Open` returns.
abbrev pub after_open : Env → Config → Logger → Option Error → Ended
after_open env cfg logger (some e) = returned (some (wrapped "open sqlite" e)) []
after_open env cfg logger none =
    after_migrate env cfg logger (write logger level_info "opened sqlite database connection" [] [])
      (migrate env.migrating).0

-- `run`, by what `Load` returns.
abbrev pub after_load : Env → Loaded → Ended
after_load env (loaded cfg) =
    after_open env cfg (logger_of cfg) (open_db env.opening cfg.sqlite_dir)
after_load env (failed e) = returned (some e) []
after_load env (exited messages) = exited_early messages

-- `run`
unfoldable pub run : Env → Ended
unfolding serve_config
run env = after_load env (load env.open_config env.decode env.parse_env env.config_file)

-- What `main` makes of the end of `run`: its exit status, and the lines.
unfoldable pub main_end : Ended → ℕ × List Line
main_end (returned none lines) = (0, lines)
main_end (returned (some e) lines) = (
  1,
  write (new_logger []) level_error "failed to run service" (("error", error_value e) ∷ []) lines,
)
main_end (exited_early messages) = (1, [])
