-- ===== src/Http/Transport/Logged.antt =====
-- What the client and the log get to see of a request.
use auth_service_go.Base.{ℕ, ◌+◌, ◌≡◌, refl, ap, some, List, [], ◌∷◌, ◌++◌}
use auth_service_go.Http.Transport.{
  Incoming, LogLine, Exchange, Outcome, finished, panicked, RawHandler, first_or, last_or,
  sent_status, recovered, recoverer, logged, request_logger, is_traced, span_name, OtelHttp,
  tracing_middleware, use_middleware, dispatch, raw, written, serve_http,
}
use auth_service_go.Http.{Handler, Response, status_of}
use auth_service_go.Http.Router.{RouterDeps, Route, new_router, route_to}
use auth_service_go.Platform.{Platform, World, ok}

-- The tracing library runs the handler that it wraps, once, and passes what it does on.
abbrev pub PassesOn : OtelHttp → Type 0
PassesOn otel =
    (next : RawHandler) (i : Incoming) (p : Platform) (x : Exchange)
    → otel is_traced span_name next i p x ≡ next i p x

-- A request that has just arrived.
abbrev pub arrived : World → List LogLine → Exchange
arrived w log = record { world = w; headers = []; log = log }

-- What the handler behind the middleware does, after RequestLogger's look at the clock.
abbrev pub behind : RawHandler → Incoming → Platform → World → List LogLine → Outcome × Exchange
behind mux i p w log = mux i p (arrived (record w { calls = w.calls + 1 }) log)

-- What the middleware makes of the handler's outcome.
pub record IsServed (i : Incoming) (inner outer : Outcome × Exchange) : Type 0 where
  -- No panic gets out.
  pub no_panic : outer.0 ≡ finished
  -- The first status that the handler wrote is sent; 500 after a panic that wrote none.
  pub sent :
      sent_status outer.1
      ≡ first_or (elim (inner.0) [ finished ↦ 200 | panicked ↦ 500 ]) inner.1.headers

-- Behind the middleware no panic gets out. The client is sent the first status that the handler wrote;
-- if it wrote none, 200 after it returned and 500 after it panicked.
pub use_middleware-IsServed :
    (otel : OtelHttp) (mux : RawHandler) (i : Incoming) (p : Platform) (w : World)
    (log : List LogLine)
    → PassesOn otel
    → IsServed i (behind mux i p w log) (use_middleware otel mux i p (arrived w log))
unfolding use_middleware recoverer tracing_middleware request_logger
use_middleware-IsServed otel mux i p w log passes =
    rw (passes (request_logger mux) i p (arrived w log)) (go (behind mux i p w log))
  where
    go : (inner : Outcome × Exchange) → IsServed i inner (recovered (logged i p w.calls [] inner))
    go (finished, x) = record { no_panic = refl; sent = refl }
    go (panicked, x) = record { no_panic = refl; sent = head_lem x.headers }
      where
        head_lem : (hs : List ℕ) → first_or 200 (hs ++ 500 ∷ []) ≡ first_or 500 hs
        head_lem [] = refl
        head_lem (h ∷ hs) = refl

-- The line for a request.
pub record IsLineOf (i : Incoming) (written : ℕ) (line : LogLine) : Type 0 where
  pub method : line.method ≡ i.method_name
  pub path : line.path ≡ i.path
  pub status : line.status ≡ written

-- What is in the log of a request after its handler.
abbrev pub IsLogged : Incoming → Outcome × Exchange → List LogLine → Type 0
IsLogged i (finished, x) log =
    (line : LogLine) × (log ≡ x.log ++ line ∷ []) × IsLineOf i (last_or 200 x.headers) line
IsLogged i (panicked, x) log = log ≡ x.log

-- A handler that returns gets one line, with the request's method and path and the last status that
-- the handler wrote, 200 if none. A handler that panics gets no line: the panic passes RequestLogger
-- on its way to Recoverer.
pub use_middleware-IsLogged :
    (otel : OtelHttp) (mux : RawHandler) (i : Incoming) (p : Platform) (w : World)
    (log : List LogLine)
    → PassesOn otel
    → IsLogged i (behind mux i p w log) (use_middleware otel mux i p (arrived w log)).1.log
unfolding use_middleware recoverer tracing_middleware request_logger
use_middleware-IsLogged otel mux i p w log passes =
    rw (passes (request_logger mux) i p (arrived w log)) (go (behind mux i p w log))
  where
    go :
        (inner : Outcome × Exchange)
        → IsLogged i inner (recovered (logged i p w.calls [] inner)).1.log
    go (finished, x) = (_, refl, record { method = refl; path = refl; status = refl })
    go (panicked, x) = refl

raw_lem :
    (handler : Handler) (i : Incoming) (p : Platform) (x : Exchange) (response : Response)
    (w' : World)
    → handler i.request p x.world ≡ (ok response, w')
    → raw handler i p x
      ≡ (finished, record x { world = w'; headers = x.headers ++ status_of response ∷ [] })
unfolding raw
raw_lem handler i p x response w' answered = ap (written x) answered

-- What is sent and logged, and what the tables are, after a handler's answer.
pub record IsAnswered (i : Incoming) (response : Response) (w' : World) (log : List LogLine)
    (out : Outcome × Exchange) : Type 0 where
  pub no_panic : out.0 ≡ finished
  pub sent : sent_status out.1 ≡ status_of response
  pub logged_too :
      (line : LogLine) × (out.1.log ≡ log ++ line ∷ []) × IsLineOf i (status_of response) line
  pub effect : out.1.world.db ≡ w'.db

-- When a route takes the request and its handler answers, no panic gets out, the client is sent and
-- the log's one new line has the answer's status, and the tables are those that the handler left.
serve_http-IsAnswered :
    (otel : OtelHttp) (unmatched : RawHandler) (deps : RouterDeps) (i : Incoming) (p : Platform)
    (w w' : World) (log : List LogLine) (route : Route) (response : Response)
    → PassesOn otel
    → route_to (new_router deps) i.method i.path ≡ some route
    → route.handler i.request p (record w { calls = w.calls + 1 }) ≡ (ok response, w')
    → IsAnswered i response w' log (serve_http otel unmatched deps i p (arrived w log))
unfolding serve_http use_middleware recoverer tracing_middleware request_logger dispatch
serve_http-IsAnswered otel unmatched deps i p w w' log route response passes routed answered =
    rw
      (
        passes (request_logger (dispatch unmatched (new_router deps))) i p (arrived w log),
        routed,
        raw_lem route.handler i p (arrived (record w { calls = w.calls + 1 }) log) response w'
            answered,
      )
      (record {
        no_panic = refl;
        sent = refl;
        logged_too = (_, refl, record { method = refl; path = refl; status = refl });
        effect = refl;
      })
