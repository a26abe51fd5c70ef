-- ===== src/Main/Run/Laws.antt =====
-- When the program ends well, and what a signal does to requests that are being answered.
use iot_metrics.Base.{◌≡◌, refl, ◌↔◌, List, [], ◌∷◌, Option, none, some, arith}
use iot_metrics.Config.{Config, Loaded, loaded, failed, exited, load}
use iot_metrics.Go.Errors.{Error, canceled}
use iot_metrics.Http.Server.{Context, with_timeout}
use iot_metrics.Log.{Logger, Line, level_error, error_value}
use iot_metrics.Main.{logger_of, logger_of-write}
use iot_metrics.Main.Run.{
  Env, Ending, served, interrupted, Ended, returned, answer, context_of, after_migrate, after_open,
  after_load, serve_config, run, main_end,
}
use iot_metrics.Sqlite.Conn.{open_db}
use iot_metrics.Sqlite.Conn.Laws.{IsOpenable, open_db-eq-none_iff}
use iot_metrics.Sqlite.Migrate.{migrate, IsMigratable, migrate-eq-none_iff}

-- A signal ends the server, or `Serve` returns nil.
abbrev pub IsQuiet : Ending → Type 0
IsQuiet (served none signalled) = Unit
IsQuiet (served (some e) signalled) = ⊥
IsQuiet interrupted = Unit

-- The configuration is loaded, and the database is opened and migrated.
pub record IsStarted (env : Env) (cfg : Config) : Type 0 where
  pub loads : load env.open_config env.decode env.parse_env env.config_file ≡ loaded cfg
  pub opens : IsOpenable env.opening cfg.sqlite_dir
  pub migrates : IsMigratable env.migrating

abbrev EndsWell : Ended → Type 0
EndsWell end = (main_end end).0 ≡ 0

module _ (env : Env) where
  serve_config-EndsWell :
      (cfg : Config) (logger : Logger) (lines : List Line)
      → EndsWell (serve_config env cfg logger lines) ↔ IsQuiet env.ending
  unfolding main_end serve_config answer
  serve_config-EndsWell cfg logger lines = go env.ending _
    where
      go : (e : Ending) (out : List Line) → EndsWell (returned (answer e) out) ↔ IsQuiet e
      go (served none b) out = (λ h. tt, λ h. refl)
      go (served (some e) b) out = (λ h. absurd (omega (arith, h)), λ h. elim h [ ])
      go interrupted out = (λ h. tt, λ h. refl)

  after_migrate-EndsWell :
      (cfg : Config) (logger : Logger) (lines : List Line) (o : Option Error)
      → EndsWell (after_migrate env cfg logger lines o) ↔ ((o ≡ none) × IsQuiet env.ending)
  unfolding main_end
  after_migrate-EndsWell cfg logger lines (some e) = (λ h. absurd (omega (arith, h)), λ h. cc h.0)
  after_migrate-EndsWell cfg logger lines none =
      let ends = serve_config-EndsWell cfg logger _ in (λ h. (refl, ends.0 h), λ h. ends.1 h.1)

  after_open-EndsWell :
      (cfg : Config) (logger : Logger) (o : Option Error)
      → EndsWell (after_open env cfg logger o)
        ↔ ((o ≡ none) × IsMigratable env.migrating × IsQuiet env.ending)
  unfolding main_end
  after_open-EndsWell cfg logger (some e) = (λ h. absurd (omega (arith, h)), λ h. cc h.0)
  after_open-EndsWell cfg logger none =
      let (migrates, _) = migrate-eq-none_iff env.migrating in
      let ends = after_migrate-EndsWell cfg logger _ (migrate env.migrating).0 in
      (λ h. let (m, q) = ends.0 h in (refl, migrates.0 m, q), λ (o, m, q). ends.1 (migrates.1 m, q))

  -- The program ends with the status 0 exactly if its configuration is loaded, its database is opened
  -- and migrated, and then a signal ends the server or serving returns no error.
  pub run-eq-zero_iff :
      ((main_end (run env)).0 ≡ 0) ↔ ((cfg : Config) × IsStarted env cfg × IsQuiet env.ending)
  unfolding run main_end
  run-eq-zero_iff = (
    go (load env.open_config env.decode env.parse_env env.config_file) refl,
    λ (cfg, started, quiet). rw started.loads (
        (after_open-EndsWell cfg (logger_of cfg) (open_db env.opening cfg.sqlite_dir)).1 (
          (open_db-eq-none_iff env.opening cfg.sqlite_dir).1 started.opens,
          started.migrates,
          quiet,
        )),
  )
    where
      go :
          (l : Loaded)
          → load env.open_config env.decode env.parse_env env.config_file ≡ l
          → EndsWell (after_load env l)
          → (cfg : Config) × IsStarted env cfg × IsQuiet env.ending
      go (loaded cfg) e h =
          let (o, m, q) =
            (after_open-EndsWell cfg (logger_of cfg) (open_db env.opening cfg.sqlite_dir)).0 h in
          (
            cfg,
            record {
              loads = e;
              opens = (open_db-eq-none_iff env.opening cfg.sqlite_dir).0 o;
              migrates = m;
            },
            q,
          )
      go (failed x) e h = absurd (omega (arith, h))
      go (exited messages) e h = absurd (omega (arith, h))

  -- If a signal ends the server while its connections are busy, so that `Shutdown` of a context that is
  -- done returns the error of the context, the server is not stopped gracefully: the context that it
  -- is stopped with is done already, and the last line tells so; the program ends with the status 0.
  pub run_cut_off :
      (cfg : Config)
      → IsStarted env cfg
      → env.ending ≡ interrupted
      → ((ctx : Context) (e : Error) → ctx.done ≡ some e → env.shutdown ctx ≡ some e)
      → (lines : List Line) × (run env
          ≡ returned none (
              record {
                level = level_error;
                message = "failed to stop server";
                attrs = ("error", error_value canceled) ∷ [];
              }
              ∷ lines))
  unfolding run serve_config answer context_of
  run_cut_off cfg started signal busy =
      rw
        (
          started.loads,
          (open_db-eq-none_iff env.opening cfg.sqlite_dir).1 started.opens,
          (migrate-eq-none_iff env.migrating).0.1 started.migrates,
          signal,
          busy (with_timeout 10 (context_of interrupted)) canceled refl,
          logger_of-write cfg,
        )
        (_, refl)
