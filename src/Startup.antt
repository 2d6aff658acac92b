-- ===== src/Startup.antt =====
-- What surrounds the start of the service: the file system, the operating system and the servers it
-- talks to. An action of the start gives a result and the next machine; the n-th call to the outside
-- is answered by entry n of the host, as for the requests.
pub mod Keys
pub mod Settings
pub mod App
pub mod Run
use auth_service_go.Base.{
  ℕ, ◌+◌, Bool, true, false, Option, none, some, List, [], ◌∷◌, ◌++◌, if◌then◌else◌,
}
use auth_service_go.Base.Strings.{Str, Bytes, codes, str_eq}
use auth_service_go.Domain.{Error, external}
use auth_service_go.Platform.{Result, ok, err, wrap_result}

pub record Host : Type 0 where
  -- Whether the call fails.
  pub fails : ℕ → Bool
  -- What a write that failed left in the file.
  pub torn : ℕ → Option Bytes
  -- Why the server stops: its error, or `none` for a signal.
  pub stop : ℕ → Option Error

-- What the process holds while it runs.
pub data Resource : Type 0 where
  signals tracing pool : Resource

pub data Event : Type 0 where
  opened closed : Resource → Event
  -- The server listens on an address.
  listening : Str → Event

pub record Machine : Type 0 where
  pub files : Str → Option Bytes
  pub calls : ℕ
  -- The latest event first.
  pub events : List Event

abbrev pub Boot : Type 0 → Type 0
Boot A = Host → Machine → Result A × Machine

module _ {A : Type 0} where
  unfoldable pub give : Result A → Boot A
  give r h m = (r, m)

  -- One call that may fail.
  unfoldable pub ask : (ℕ → A) → Boot A
  ask f h m = (
    if h.fails m.calls then err (external (codes "host")) else ok (f m.calls),
    record m { calls = m.calls + 1 },
  )

  unfoldable pub noting : Str → Boot A → Boot A
  noting message b h m = let (r, m') = b h m in (wrap_result message r, m')

  -- `defer close()` before the rest.
  unfoldable pub deferring : Boot Unit → Boot A → Boot A
  deferring close rest h m = let (r, m') = rest h m in (r, (close h m').1)

unfoldable pub record_event : Event → Boot Unit
record_event e h m = (ok tt, record m { events = e ∷ m.events })

-- `os.Stat` gives no error.
unfoldable pub file_exists : Str → Boot Bool
file_exists path h m = (
  ok (if h.fails m.calls then false else elim (m.files path) [ none ↦ false | some _ ↦ true ]),
  record m { calls = m.calls + 1 },
)

unfoldable pub read_file : Str → Boot Bytes
read_file path h m = (
  elim (m.files path) [
    | none ↦ err (external (codes "no such file"))
    | some content ↦ if h.fails m.calls then err (external (codes "read")) else ok content
  ],
  record m { calls = m.calls + 1 },
)

-- Waits until the server stops.
unfoldable pub wait_for_stop : Boot Unit
wait_for_stop h m =
    (elim (h.stop m.calls) [ none ↦ ok tt | some e ↦ err e ], record m { calls = m.calls + 1 })

abbrev pub put_file : Str → Option Bytes → (Str → Option Bytes) → Str → Option Bytes
put_file path content files q = if str_eq q path then content else files q

-- A write that fails leaves something else behind.
unfoldable pub write_file : Str → Bytes → Boot Unit
write_file path content h m =
    if h.fails m.calls
    then (
      err (external (codes "write")),
      record m { files = put_file path (h.torn m.calls) m.files; calls = m.calls + 1 },
    )
    else (ok tt, record m { files = put_file path (some content) m.files; calls = m.calls + 1 })

-- `os.MkdirAll`: the directories are not modelled.
unfoldable pub make_directory : Str → Boot Unit
make_directory path = ask (λ _. tt)

module _ {A B : Type 0} where
  abbrev pub continue : Result A → (A → Boot B) → Boot B
  continue (ok a) f h m = f a h m
  continue (err e) f h m = (err e, m)

  infixl 5 ◌>>=◌ ◌>>◌
  -- Opening this opens the other actions too.
  unfoldable pub ◌>>=◌ : Boot A → (A → Boot B) → Boot B
  unfolding give ask noting record_event wait_for_stop deferring file_exists read_file write_file
      make_directory
  ◌>>=◌ b f h m = let (r, m') = b h m in continue r f h m'

  abbrev pub ◌>>◌ : Boot A → Boot B → Boot B
  b >> c = b >>= λ _. c
