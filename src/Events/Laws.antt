-- ===== src/Events/Laws.antt =====
-- What the event adapter promises.
use newtua_py.Base.{◌≡◌, ◌≢◌, refl, ◌<>◌, arith, text_eq, text_eq_iff, ◌⊎◌, inl, inr, Bool-cases}
use newtua_py.Paths.{posix_path}
use newtua_py.Errors.{Exc, ok, err, new, value_error, class_of}
use newtua_py.Enums.{event_kind_value}
use newtua_py.Events.{
  ProgressEvent, entry_started, bytes_written, entry_finished, kind, index, RawEvent,
  event_from_raw, or_empty, Callback, wrap_progress,
}

-- The event that is built carries the position that the engine sent, and its class's kind has the
-- engine's tag as its value: the enumeration and the table of builders agree.
kind-event_from_raw :
    (r : RawEvent) (e : ProgressEvent)
    → event_from_raw r ≡ ok e
    → (event_kind_value (kind e) ≡ r.event) × (index e ≡ r.index)
unfolding event_from_raw kind index
kind-event_from_raw r e h =
    ground
      (arith, text_eq_iff "start" r.event, text_eq_iff "bytes" r.event, text_eq_iff "done" r.event)

-- The adapted callback calls the user's callback, whose state and answer it passes on, for three tags
-- only: for "start" with the number, the parsed path (of an empty text, if there is none) and the
-- size, for "bytes" with the number and the bytes written, for "done" with the number. For any other
-- tag it raises `ValueError`, and the user's callback is not called: its state stays as it was.
pub wrap_progress_cases :
    {U : Type 0} (progress : Callback U ProgressEvent) (r : RawEvent) (u : U)
    → ((r.event ≡ "start")
        × (wrap_progress progress r u
            ≡ progress (entry_started r.index (posix_path (or_empty r.path)) r.size) u))
      ⊎ ((r.event ≡ "bytes")
          × (wrap_progress progress r u ≡ progress (bytes_written r.index r.written) u))
      ⊎ ((r.event ≡ "done") × (wrap_progress progress r u ≡ progress (entry_finished r.index) u))
      ⊎ ((r.event ≢ "start")
          × (r.event ≢ "bytes")
          × (r.event ≢ "done")
          × (exc : Exc) × (wrap_progress progress r u ≡ (err exc, u))
          × (class_of exc ≡ value_error))
unfolding wrap_progress event_from_raw
wrap_progress_cases progress r u = elim (Bool-cases (text_eq "start" r.event)) [
  | inl s ↦ inl (ground (arith, text_eq_iff "start" r.event), ground arith)
  | inr not_start ↦ inr (elim (Bool-cases (text_eq "bytes" r.event)) [
    | inl b ↦ inl (ground (arith, text_eq_iff "bytes" r.event), ground arith)
    | inr not_bytes ↦ inr (elim (Bool-cases (text_eq "done" r.event)) [
      | inl d ↦ inl (ground (arith, text_eq_iff "done" r.event), ground arith)
      | inr not_done ↦ inr (
        ground (arith, text_eq_iff "start" r.event),
        ground (arith, text_eq_iff "bytes" r.event),
        ground (arith, text_eq_iff "done" r.event),
        new value_error ("Unknown event type: '" <> r.event <> "'"),
        ground arith,
        refl,
      )
    ])
  ])
]
