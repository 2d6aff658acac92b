-- ===== src/Logging.antt =====
-- internal/adapter/logging/trace_handler.go: the log handler that adds the ids of the span. log/slog
-- and opentelemetry are parameters.
use auth_service_go.Base.{
  ℕ, ◌≡◌, refl, ◌⊎◌, Bool, true, false, Option, List, [], ◌∷◌, ◌++◌, if◌then◌else◌, inl, inr,
  Bool-cases,
}
use auth_service_go.Base.Strings.{Str, codes}

-- `trace.SpanContextFromContext` of a context, with the texts of its ids.
pub record SpanContext : Type 0 where
  pub is_valid : Bool
  pub trace_id : Str
  pub span_id : Str

pub record Attr : Type 0 where
  pub key : Str
  pub value : Str

pub record LogRecord : Type 0 where
  pub level : ℕ
  pub message : Str
  pub attrs : List Attr

-- The handlers of log/slog: each is an `H`, what they write to is an `Out`, and `some` is an error.
pub record SlogLib (H Out : Type 0) : Type 0 where
  pub enabled : H → SpanContext → ℕ → Bool
  pub handle : H → SpanContext → LogRecord → Out → Option Str × Out
  pub with_attrs : H → List Attr → H
  pub with_group : H → Str → H

-- A value of the interface `slog.Handler`: a handler of the library, or a `*TraceHandler` with the
-- value in its field `next`.
pub data SlogHandler (H : Type 0) : Type 0 where
  library : H → SlogHandler H
  trace : SlogHandler H → SlogHandler H

abbrev pub new_trace_handler : {H : Type 0} → SlogHandler H → SlogHandler H
new_trace_handler next = trace next

-- `record.AddAttrs` under a valid span.
traced : SpanContext → LogRecord → LogRecord
traced span r =
    if span.is_valid
    then record r {
      attrs =
          r.attrs
          ++ record { key = codes "trace_id"; value = span.trace_id }
            ∷ record { key = codes "span_id"; value = span.span_id }
            ∷ [];
    }
    else r

-- The methods of the interface.
module _ {H Out : Type 0} (lib : SlogLib H Out) where
  pub enabled : SlogHandler H → SpanContext → ℕ → Bool
  enabled (library h) span level = lib.enabled h span level
  enabled (trace next) span level = enabled next span level

  pub handle : SlogHandler H → SpanContext → LogRecord → Out → Option Str × Out
  handle (library h) span r out = lib.handle h span r out
  handle (trace next) span r out = handle next span (traced span r) out

  pub with_attrs : SlogHandler H → List Attr → SlogHandler H
  with_attrs (library h) attrs = library (lib.with_attrs h attrs)
  with_attrs (trace next) attrs = trace (with_attrs next attrs)

  pub with_group : SlogHandler H → Str → SlogHandler H
  with_group (library h) name = library (lib.with_group h name)
  with_group (trace next) name = trace (with_group next name)

-- What `Logger.With` and `Logger.WithGroup` ask of a handler.
pub data Derivation : Type 0 where
  with_list : List Attr → Derivation
  in_group : Str → Derivation

module _ {H Out : Type 0} (lib : SlogLib H Out) where
  abbrev pub derive_one : SlogHandler H → Derivation → SlogHandler H
  derive_one h (with_list attrs) = with_attrs lib h attrs
  derive_one h (in_group name) = with_group lib h name

  -- The handler of a logger derived step by step.
  abbrev pub derive : SlogHandler H → List Derivation → SlogHandler H
  derive h [] = h
  derive h (d ∷ ds) = derive (derive_one h d) ds

  derive-new_trace_handler :
      (h : SlogHandler H) (ds : List Derivation)
      → derive (new_trace_handler h) ds ≡ trace (derive h ds)
  unfolding with_attrs with_group
  derive-new_trace_handler h [] = refl
  derive-new_trace_handler h (with_list attrs ∷ ds) =
      derive-new_trace_handler (with_attrs lib h attrs) ds
  derive-new_trace_handler h (in_group name ∷ ds) =
      derive-new_trace_handler (with_group lib h name) ds

-- A record with the ids of a span after its attributes.
abbrev pub with_ids : SpanContext → LogRecord → LogRecord
with_ids span r = record {
  level = r.level;
  message = r.message;
  attrs =
      r.attrs
      ++ record { key = codes "trace_id"; value = span.trace_id }
        ∷ record { key = codes "span_id"; value = span.span_id }
        ∷ [];
}

-- The trace handler, and every handler derived from it by attributes and groups, still adds the ids,
-- and is for the rest the wrapped handler derived alike: it is enabled where that is; under a valid
-- span it handles a record as that handles the record with an attribute trace_id and an attribute
-- span_id, the ids of the span, after its own; and otherwise as that handles the record itself.
pub derived_loggers_trace :
    {H Out : Type 0} (lib : SlogLib H Out) (h : SlogHandler H) (ds : List Derivation)
    (span : SpanContext)
    → let derived = derive lib (new_trace_handler h) ds in
      let plain = derive lib h ds in
      ((level : ℕ) → enabled lib derived span level ≡ enabled lib plain span level)
      × ((r : LogRecord) (out : Out)
          → ((span.is_valid ≡ true)
              × (handle lib derived span r out ≡ handle lib plain span (with_ids span r) out))
            ⊎ ((span.is_valid ≡ false)
                × (handle lib derived span r out ≡ handle lib plain span r out)))
unfolding enabled handle traced
derived_loggers_trace lib h ds span = (
  λ level. rw (derive-new_trace_handler lib h ds) refl,
  λ r out. elim (Bool-cases span.is_valid) [
    | inl valid ↦ inl (valid, rw (derive-new_trace_handler lib h ds, valid) refl)
    | inr invalid ↦ inr (invalid, rw (derive-new_trace_handler lib h ds, invalid) refl)
  ],
)
