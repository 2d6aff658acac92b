-- ===== src/Tests/Logging.antt =====
-- A log handler that keeps the attributes that it was given and collects the records.
use auth_service_go.Base.{ℕ, ◌≡◌, ◌⊎◌, true, false, none, List, [], ◌∷◌, ◌++◌}
use auth_service_go.Base.Strings.{codes}
use auth_service_go.Logging.{
  Attr, Derivation, with_list, in_group, LogRecord, SlogLib, library, SpanContext, derive,
  derived_loggers_trace, enabled, handle, new_trace_handler, with_ids,
}

abbrev collector : SlogLib (List Attr) (List LogRecord)
collector = record {
  enabled = λ h span level. true;
  handle = λ h span r out. (none, out ++ record r { attrs = h ++ r.attrs } ∷ []);
  with_attrs = λ h more. h ++ more;
  with_group = λ h name. h;
}

abbrev steps : List Derivation
steps =
    in_group (codes "auth") ∷ with_list (record { key = codes "user"; value = codes "1" } ∷ []) ∷ []

abbrev span : SpanContext
span = record { is_valid = true; trace_id = codes "4bf9"; span_id = codes "00f0" }

derived_loggers_trace_example :
    let derived = derive collector (new_trace_handler (library [])) steps in
    let plain = derive collector (library []) steps in
    ((level : ℕ) → enabled collector derived span level ≡ enabled collector plain span level)
    × ((r : LogRecord) (out : List LogRecord)
        → ((span.is_valid ≡ true)
            × (handle collector derived span r out
                ≡ handle collector plain span (with_ids span r) out))
          ⊎ ((span.is_valid ≡ false)
              × (handle collector derived span r out ≡ handle collector plain span r out)))
derived_loggers_trace_example = derived_loggers_trace collector (library []) steps span
