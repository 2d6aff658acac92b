-- ===== src/Lib.antt =====
-- auth-service-go: registration, password login, passwordless login by mailed code, sign-in with
-- Google, refresh-token sessions and the SELLER upgrade, over PostgreSQL.
--
-- Parts, and the file that models each (source paths from the repository's root):
--   Base, Base/Lists, Base/Updates,
--     Base/Strings                     shared names; queries and updates over lists of rows; Go
--                                      strings as lists of code points, strings.TrimSpace/ToLower
--   Domain                             internal/domain: entities, sentinel errors, errors.Is
--   Database                           migrations/*.sql: tables and the constraints of an INSERT;
--                                      the row types of internal/adapter/postgres/models.go
--   Database/Migrations                migrations/*.up.sql and *.down.sql as functions of the tables
--   Platform                           what is outside: clock, uuid, random bytes, digests, faults of
--                                      the database and mail servers; the type of methods (`Action`)
--   Encoding                           encoding/hex, encoding/base64 RawURLEncoding, strings.Cut
--   Usecase/Ports                      internal/usecase/ports.go
--   Usecase/Accounts                   internal/usecase/{register,login,add_role,bulk_create}.go
--   Usecase/Sessions                   internal/usecase/{refresh,logout}.go
--   Usecase/Codes                      internal/usecase/{request_code,verify_code}.go
--   Usecase/Google                     internal/usecase/{oauth_state,start_google_oauth,
--                                      complete_google_oauth}.go
--   Postgres/Models, Statements,       internal/adapter/postgres: between entities and rows; the SQL
--     Repositories                     that the GORM calls stand for; the three repositories
--   Hash, Jwt, Mail, Oauth             internal/adapter/{hash,jwt/issuer.go,mail,oauth}
--   Logging                            internal/adapter/logging
--   Service                            cmd/auth-service/main.go: use cases wired to adapters; a run of
--                                      the service as a sequence of use-case calls (`serve`)
--   Http, Http/Handlers, Http/Requests internal/adapter/http/handler: answers, handlers, and the
--                                      request types with their validation rules
--   Http/Middleware                    internal/adapter/http/middleware.go, RequireAuth and
--                                      AdminAPIKey; internal/adapter/jwt/verifier.go
--   Http/Router                        internal/adapter/http/router.go: the route table
--   Http/Transport                     Recoverer, RequestLogger and tracing around the route table
--   Startup, Startup/Keys              the file system; internal/adapter/jwt/{keys,jwks}.go
--   Startup/Settings                   internal/config/config.go
--   Startup/App, Startup/Run           cmd/auth-service/main.go: the service assembled from the
--                                      settings and the key; the start and the end of the program,
--                                      with internal/adapter/{otel/tracer,postgres/db}.go
--   Platform/Process, Platform/Program actions cut into processes of single calls to the outside,
--                                      and the interleavings of a pool of processes
--   Service/Programs,                  every repository method, use case and request as such a
--     Service/Programs/Requests        process, which does alone what the action does
--   Postgres/Statements/Cases, Postgres/Repositories/Queries, Platform/Keeps, Platform/Brings,
--   Platform/Returns, Encoding/RoundTrip, Usecase/Google/State, Service/*, Http/Bearer,
--   Http/Guards, Http/Answers, Http/Accepted, Http/Contract, Http/Transport/Logged,
--   Startup/Keys/*, Startup/App/{Keyed,Jwks,Contract}, Startup/Run/Released
--                                      the proofs; Tests/* applies the theorems to concrete inputs
--
-- How code is modelled. A method `f(ctx, a) (B, error)` is a function `f : A → Action B`; an action
-- takes the platform and the world (tables, number of calls to the outside so far, what was sent)
-- and gives a result, `ok` or `err`, and the next world, which keeps what was written before an
-- error. The n-th call to the outside is answered by entry n of the platform, so a theorem for all
-- platforms covers every clock, every random source and every pattern of failing statements.
-- Use-case calls run one after another (`serve`) or at the same time, call by call in any order
-- (`interleave` in Service/Concurrent); Service/Race and Service/Guesses run one order of theirs.
-- `fmt.Errorf("…: %w", err)` is `wrapping`, `x, err := …` that is looked at later is `attempt`.
-- A statement of the database runs whole or fails and changes nothing; INSERT respects PRIMARY KEY,
-- UNIQUE, REFERENCES and VARCHAR(n). Times are nanoseconds, and durations of the configuration are
-- not negative; a theorem that relies on one has at most 9,223,372,036 seconds, above which the
-- product in nanoseconds can be negative in the code. Loops are structural recursions; only the bytes of a number go by fuel, the number
-- itself, of which each round takes a 256th.
--
-- Parameters. bcrypt, SHA-256, HMAC, the RS256 signature, encoding/json, validator, net/http,
-- golang-jwt, google/uuid and Unicode's lower-case table beyond ASCII are functions of the
-- platform or of a record that names the library; a theorem that relies on one of them says on
-- what.
--
-- Not modelled: which records the program logs beside RequestLogger's lines, the export of traces,
-- chi's answers where no route matches, the wire format of HTTP, negative integers in the
-- environment, and the rounding of a TIMESTAMPTZ to microseconds: a row keeps the nanoseconds.
pub mod Base
pub mod Domain
pub mod Database
pub mod Platform
pub mod Encoding
pub mod Usecase
pub mod Postgres
pub mod Hash
pub mod Jwt
pub mod Logging
pub mod Mail
pub mod Oauth
pub mod Service
pub mod Startup
pub mod Http
mod Tests
