-- ===== src/Platform.antt =====
-- What surrounds the service: the Go runtime, the libraries and services that it calls, and the
-- database that it writes. `Platform` holds the functions that are not this repository's code; the
-- n-th call to the outside is answered by its entry n, so a theorem over every platform is a
-- theorem over every behaviour of clock, random source, network and database server.
pub mod Keeps
pub mod Brings
pub mod Returns
pub mod Process
pub mod Program
use auth_service_go.Base.{
  ℕ, ◌+◌, Bool, true, false, Option, none, some, List, [], ◌∷◌, ◌++◌, if◌then◌else◌,
}
use auth_service_go.Base.Strings.{Str, Bytes, codes}
use auth_service_go.Domain.{Uuid, Time, Error, wrap, external}
use auth_service_go.Database.{Db}

pub record Platform : Type 0 where
  -- `time.Now().UTC()`.
  pub time : ℕ → Time
  -- `uuid.New()`.
  pub uuid : ℕ → Uuid
  -- `rand.Read` into so many bytes; `none` is its error.
  pub random : ℕ → ℕ → Option Bytes
  -- `rand.Int` below a bound.
  pub random_below : ℕ → ℕ → Option ℕ
  -- Whether the call to the database server or to the mail server fails.
  pub fails : ℕ → Bool
  -- `unicode.ToLower` from U+0080 on.
  pub lower_table : ℕ → ℕ
  -- `uuid.UUID.String`.
  pub uuid_string : Uuid → Str
  -- `sha256.Sum256` and `hmac.New(sha256.New, key)`.
  pub sha256 : Bytes → Bytes
  pub hmac_sha256 : Bytes → Bytes → Bytes

-- `smtp.SendMail`'s arguments, as far as they name the message.
pub record Mail : Type 0 where
  pub address : Str
  pub from : Str
  pub to : Str
  pub message : Str

-- What leaves the service: a mail, or a line of the log with an address and a code.
pub data Delivery : Type 0 where
  mailed : Mail → Delivery
  logged : Str → Str → Delivery

-- The tables, the number of calls to the outside so far, and what was sent.
pub record World : Type 0 where
  pub db : Db
  pub calls : ℕ
  pub outbox : List Delivery

pub data Result (A : Type 0) : Type 0 where
  ok : A → Result A
  err : Error → Result A

-- A method that returns `(A, error)`. What it wrote before it failed stays written.
abbrev pub Action : Type 0 → Type 0
Action A = Platform → World → Result A × World

module _ {A : Type 0} where
  unfoldable pub return : A → Action A
  return a p w = (ok a, w)

  unfoldable pub fail : Error → Action A
  fail e p w = (err e, w)

  unfoldable pub of_result : Result A → Action A
  of_result r p w = (r, w)

  unfoldable pub asks : (Platform → A) → Action A
  asks f p w = (ok (f p), w)

  -- `x, err := m`, where the code goes on to look at `err`.
  unfoldable pub attempt : Action A → Action (Result A)
  attempt m p w = let (r, w') = m p w in (ok r, w')

  abbrev pub wrap_result : Str → Result A → Result A
  wrap_result message (ok a) = ok a
  wrap_result message (err e) = err (wrap message e)

  -- `if err != nil { return …, fmt.Errorf("message: %w", err) }`.
  unfoldable pub wrapping : Str → Action A → Action A
  wrapping message m p w = let (r, w') = m p w in (wrap_result message r, w')

  -- One call to the outside.
  unfoldable pub call : (Platform → ℕ → Result A) → Action A
  call f p w = (f p w.calls, record w { calls = w.calls + 1 })

  -- One statement of the database, given the server's `now()`: it runs, or the server reports a
  -- failure and nothing happens.
  unfoldable pub statement : (Time → Db → Result A × Db) → Action A
  statement f p w =
      if p.fails w.calls
      then (err (external (codes "database")), record w { calls = w.calls + 1 })
      else let (r, d) = f (p.time w.calls) w.db in (r, record w { db = d; calls = w.calls + 1 })

module _ {A B : Type 0} where
  abbrev pub continue : Result A → (A → Action B) → Action B
  continue (ok a) f p w = f a p w
  continue (err e) f p w = (err e, w)

  infixl 5 ◌>>=◌ ◌>>◌
  -- Opening this opens the other actions too.
  unfoldable pub ◌>>=◌ : Action A → (A → Action B) → Action B
  unfolding return fail of_result asks attempt wrapping call statement
  ◌>>=◌ m f p w = let (r, w') = m p w in continue r f p w'

  abbrev pub ◌>>◌ : Action A → Action B → Action B
  m >> n = m >>= λ _. n

abbrev pub now : Action Time
now = call (λ p n. ok (p.time n))

abbrev pub new_uuid : Action Uuid
new_uuid = call (λ p n. ok (p.uuid n))

abbrev or_error : {A : Type 0} → Option A → Result A
or_error (some a) = ok a
or_error none = err (external (codes "rand"))

abbrev pub read_random : ℕ → Action Bytes
read_random size = call (λ p n. or_error (p.random n size))

abbrev pub random_int : ℕ → Action ℕ
random_int bound = call (λ p n. or_error (p.random_below n bound))

-- The mail server takes the message, or reports a failure and nothing is sent.
unfoldable pub send_mail : Mail → Action Unit
send_mail m p w =
    if p.fails w.calls
    then (err (external (codes "smtp")), record w { calls = w.calls + 1 })
    else (ok tt, record w { calls = w.calls + 1; outbox = w.outbox ++ mailed m ∷ [] })

-- `slog.InfoContext`.
unfoldable pub log_code : Str → Str → Action Unit
log_code to code p w = (ok tt, record w { outbox = w.outbox ++ logged to code ∷ [] })
