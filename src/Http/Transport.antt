-- ===== src/Http/Transport.antt =====
-- internal/adapter/http/middleware.go, Recoverer and RequestLogger, tracingMiddleware of router.go,
-- and the handler that NewRouter gives to the server: handlers that write to an
-- `http.ResponseWriter` and may panic.
pub mod Logged
use auth_service_go.Base.{
  ℕ, ◌+◌, ◌-◌, Bool, true, false, not, Option, none, some, List, [], ◌∷◌, ◌++◌, if◌then◌else◌,
}
use auth_service_go.Base.Lists.{exists}
use auth_service_go.Base.Strings.{Str, codes, str_eq}
use auth_service_go.Domain.{Duration}
use auth_service_go.Http.{HttpRequest, Handler, Response, status_of}
use auth_service_go.Http.Router.{
  RouterDeps, Route, Method, get, post, other_method, new_router, route_to,
}
use auth_service_go.Platform.{Platform, World, Result, ok, err}

-- `other_method` stands for the rest, under its name.
pub record Incoming : Type 0 where
  pub method : Method
  pub method_name : Str
  pub path : Str
  pub request : HttpRequest

-- A line of RequestLogger.
pub record LogLine : Type 0 where
  pub method : Str
  pub path : Str
  pub status : ℕ
  pub duration : Duration

-- The world, the calls of `WriteHeader` on the connection's writer, and the log.
pub record Exchange : Type 0 where
  pub world : World
  pub headers : List ℕ
  pub log : List LogLine

pub data Outcome : Type 0 where
  finished panicked : Outcome

abbrev pub RawHandler : Type 0
RawHandler = Incoming → Platform → Exchange → Outcome × Exchange

-- `http.StatusOK` where there is no call of `WriteHeader`: what the connection sends goes by the
-- first call, and statusWriter keeps the last.
abbrev pub first_or : ℕ → List ℕ → ℕ
first_or default [] = default
first_or default (status ∷ _) = status

abbrev pub last_or : ℕ → List ℕ → ℕ
last_or default [] = default
last_or default (status ∷ rest) = last_or status rest

abbrev pub sent_status : Exchange → ℕ
sent_status x = first_or 200 x.headers

-- A handler of this service writes its answer with one call of `WriteHeader`. None ends in an
-- error.
abbrev pub written : Exchange → Result Response × World → Outcome × Exchange
written x (ok response, w') =
    (finished, record x { world = w'; headers = x.headers ++ status_of response ∷ [] })
written x (err e, w') = (panicked, record x { world = w' })

unfoldable pub raw : Handler → RawHandler
raw handler i p x = written x (handler i.request p x.world)

-- The deferred function of Recoverer.
abbrev pub recovered : Outcome × Exchange → Outcome × Exchange
recovered (finished, x) = (finished, x)
recovered (panicked, x) = (finished, record x { headers = x.headers ++ 500 ∷ [] })

unfoldable pub recoverer : RawHandler → RawHandler
recoverer next i p x = recovered (next i p x)

-- The line is written after the handler; a panic goes past it. The inner handler writes to a
-- statusWriter, which passes its calls on.
abbrev pub logged : Incoming → Platform → ℕ → List ℕ → Outcome × Exchange → Outcome × Exchange
logged i p start before (panicked, x) = (panicked, record x { headers = before ++ x.headers })
logged i p start before (finished, x) = (
  finished,
  record x {
    world = record x.world { calls = x.world.calls + 1 };
    headers = before ++ x.headers;
    log =
        x.log
        ++ record {
          method = i.method_name;
          path = i.path;
          status = last_or 200 x.headers;
          duration = p.time x.world.calls - p.time start;
        }
          ∷ [];
  },
)

unfoldable pub request_logger : RawHandler → RawHandler
request_logger next i p x =
    logged i p x.world.calls x.headers
      (next i p (record x { world = record x.world { calls = x.world.calls + 1 }; headers = [] }))

abbrev pub no_trace_routes : List Str
no_trace_routes = codes "/healthz" ∷ codes "/readyz" ∷ codes "/metrics" ∷ []

-- The filter and the span name of the tracing middleware.
unfoldable pub is_traced : Incoming → Bool
is_traced i = not (exists (str_eq i.path) no_trace_routes)

unfoldable pub span_name : Incoming → Str
span_name i = i.method_name ++ b' ' ∷ i.path

-- `otelhttp.NewMiddleware` with its filter and its name formatter.
abbrev pub OtelHttp : Type 0
OtelHttp = (Incoming → Bool) → (Incoming → Str) → RawHandler → RawHandler

unfoldable pub tracing_middleware : OtelHttp → RawHandler → RawHandler
tracing_middleware otel = otel is_traced span_name

abbrev pub matched : RawHandler → Option Route → RawHandler
matched unmatched none = unmatched
matched unmatched (some route) = raw route.handler

-- The route for the request, or chi's answer.
unfoldable pub dispatch : RawHandler → List Route → RawHandler
dispatch unmatched routes i = matched unmatched (route_to routes i.method i.path) i

-- `r.Use(Recoverer, tracingMiddleware(), RequestLogger)`: the first is the outermost.
unfoldable pub use_middleware : OtelHttp → RawHandler → RawHandler
use_middleware otel mux = recoverer (tracing_middleware otel (request_logger mux))

unfoldable pub serve_http : OtelHttp → RawHandler → RouterDeps → RawHandler
serve_http otel unmatched deps = use_middleware otel (dispatch unmatched (new_router deps))
