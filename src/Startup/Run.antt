-- ===== src/Startup/Run.antt =====
-- cmd/auth-service/main.go, run; internal/adapter/otel/tracer.go and internal/adapter/postgres/db.go.
-- Log lines are left out. A call of a library that may fail is an `ask`.
pub mod Released
use auth_service_go.Base.{
  ℕ, ◌+◌, Bool, true, false, not, ◌&&◌, ◌||◌, Option, none, some, List, [], ◌∷◌, ◌++◌,
  if◌then◌else◌,
}
use auth_service_go.Base.Strings.{Str, codes}
use auth_service_go.Domain.{Error}
use auth_service_go.Platform.{Result, ok, err}
use auth_service_go.Startup.{
  Boot, Host, Machine, Resource, signals, tracing, pool, Event, opened, closed, listening, give,
  ask, noting, deferring, record_event, wait_for_stop, ◌>>=◌, ◌>>◌,
}
use auth_service_go.Startup.App.{Libraries, App, assemble}
use auth_service_go.Startup.Keys.{load_or_generate_key_pair}
use auth_service_go.Startup.Settings.{Environment, Settings, load}

-- tracer.go: which traces are kept, by the text of the rate in the settings.
pub data Sampler : Type 0 where
  trace_id_ratio_based : Str → Sampler
  -- As the caller's trace, and as given where there is none.
  parent_based : Sampler → Sampler

pub record TracerProvider : Type 0 where
  pub endpoint : Str
  pub service_name : Str
  pub sampler : Sampler

-- The exporter, the resource, and the provider, which is in place from here on.
unfoldable pub setup_tracing : Str → Str → Str → Boot TracerProvider
setup_tracing endpoint service_name sample_rate = do
  ask (λ _. tt)
  ask (λ _. tt)
  record_event (opened tracing)
  give (
      ok (record {
        endpoint = endpoint;
        service_name = service_name;
        sampler = parent_based (trace_id_ratio_based sample_rate);
      }))

-- The shutdown of the provider; its error is logged.
unfoldable pub shutdown_tracing : Boot Unit
shutdown_tracing = do record_event (closed tracing); ask (λ _. tt)

-- db.go: `gorm.Open`, from which on the pool is there, `DB`, and `PingContext`.
unfoldable pub new_gorm_db : Boot Unit
new_gorm_db = do
  noting (codes "opening postgres connection") (ask (λ _. tt))
  record_event (opened pool)
  noting (codes "getting underlying sql.DB") (ask (λ _. tt))
  noting (codes "pinging postgres") (ask (λ _. tt))

unfoldable pub close_pool : Boot Unit
close_pool = do record_event (closed pool); ask (λ _. tt)

unfoldable pub stop_signals : Boot Unit
stop_signals = record_event (closed signals)

-- From the server's start to its end; after a signal, `server.Shutdown`.
unfoldable pub listen_and_serve : Settings → App → Boot Unit
listen_and_serve s app = do
  record_event (listening (b':' ∷ s.http_port))
  wait_for_stop
  ask (λ _. tt)

unfoldable pub with_database : Libraries → Settings → Boot Unit
with_database lib s = do
  key ← load_or_generate_key_pair lib.keys s.jwt_private_key_path s.jwt_public_key_path
  app ← give (assemble lib s key)
  listen_and_serve s app

unfoldable pub with_tracing : Libraries → Settings → Boot Unit
with_tracing lib s = do new_gorm_db; ask (λ _. tt); deferring close_pool (with_database lib s)

unfoldable pub with_signals : Libraries → Settings → Boot Unit
with_signals lib s = do
  setup_tracing s.otel_exporter_otlp_endpoint s.otel_service_name s.otel_traces_sample_rate
  deferring shutdown_tracing (with_tracing lib s)

unfoldable pub run : Libraries → Environment → Boot Unit
run lib env = do
  s ← give (load lib.env env)
  record_event (opened signals)
  deferring stop_signals (with_signals lib s)

abbrev pub exit_status : Result Unit → ℕ
exit_status (ok _) = 0
exit_status (err _) = 1

-- The status that the process ends with.
unfoldable pub main : Libraries → Environment → Host → Machine → ℕ × Machine
main lib env h m = let (r, m') = run lib env h m in (exit_status r, m')
