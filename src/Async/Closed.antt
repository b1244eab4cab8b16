-- ===== src/Async/Closed.antt =====
-- An `AsyncArchive` that was left, and the calls on it.
use newtua_py.Base.{◌≡◌, refl, arith, String, Bool, true, Option, List}
use newtua_py.Errors.{Result, ok, err, class_of, is_exception, raise_for}
use newtua_py.Exec.{◌>>=◌}
use newtua_py.Exec.Keeps.{Keeps, Keeps-bind, Keeps-gets, Keeps-lift, Keeps-if, either}
use newtua_py.Listing.{RawEntry, Ref}
use newtua_py.Events.{ProgressEvent, Callback}
use newtua_py.Engine.{PathCalls, Platform, RemovesNothing}
use newtua_py.Archive.Opening.{backing_path}
use newtua_py.Async.{
  AsyncState, on_sync, close_sync, aenter, aexit, keep_listing, keep_built, list_into, give_up,
  keep_path, ensure_ready, unready,
}
use newtua_py.Async.Access.{open_entry, aclose, read, extract}
use newtua_py.Async.Access.Kept.{open_pipe_sync-archive}
use newtua_py.Async.History.{read_stream, Law, Reach, Reach-Keeps}

-- Whether an archive was left.
abbrev Left : AsyncState → Type 0
Left s = s.archive.closed ≡ true

close_sync-Left : (s : AsyncState) → Left s → Left (close_sync s)
unfolding close_sync ◌>>=◌
close_sync-Left s h = h

aexit-Left : (s : AsyncState) → Left (aexit s)
unfolding aexit
aexit-Left s = refl

module _ (C : PathCalls) (P : Platform) where
  keep_listing-Left :
      (r : Result (List RawEntry × String × String)) → Keeps Left (keep_listing C P r)
  unfolding keep_listing keep_built ◌>>=◌
  keep_listing-Left (ok (raw, fmt, enc)) = record {
    at =
        (Keeps-bind _ (keep_built C P fmt enc) (Keeps-lift _)
          (λ built. record { at = λ s h. h })).at;
  }
  keep_listing-Left (err exc) = record {
    at = λ s h.
        either Left (is_exception (class_of exc)) (raise_for exc, close_sync s) (err exc, s)
          (close_sync-Left s h) h;
  }

  list_into-Left : (p : String) → Keeps Left (list_into C P p)
  unfolding list_into
  list_into-Left p = record { at = λ s. (keep_listing-Left _).at s }

  keep_path-Left : (p : String) → Keeps Left (keep_path C P p)
  unfolding keep_path ◌>>=◌
  keep_path-Left p = record { at = λ s h. h }

  aenter-Left : Keeps Left (aenter C P)
  unfolding aenter give_up
  aenter-Left =
      Keeps-bind (on_sync (backing_path P Unit)) _ (record { at = λ s h. h })
        λ p. Keeps-bind (keep_path C P p) _ (keep_path-Left p) λ kept.
          Keeps-bind _ _ (Keeps-gets _) λ missing.
            Keeps-if missing _ _ (record { at = λ s. close_sync-Left s }) (list_into-Left p)

  law : Law C P Left
  unfolding aclose read_stream
  law = record {
    entered = aenter-Left;
    exited = λ s h. aexit-Left s;
    piped = open_pipe_sync-archive (λ a. a.closed ≡ true) C P;
    stream_closed = λ address s h. h;
    stream_read = λ size address s h. h;
    grown = λ s d more h. h;
  }

  refused_after_leaving : (s : AsyncState) → Left s → ensure_ready s ≡ (err unready, s)
  unfolding ensure_ready
  refused_after_leaving s h = ground arith

  -- Once an `AsyncArchive` was left by `__aexit__`, whatever is called then, a second `__aenter__`
  -- that succeeds included, every `open`, `read` and `extract` raises the `ValueError` of an
  -- archive that is not open, and changes nothing.
  pub left_lem :
      RemovesNothing C
      → (s : AsyncState) {t : AsyncState} → Reach C P (aexit s) t
      → (ref : Ref) (dest : String) (selection : Option (List Ref)) (wrapper strict preserve : Bool)
        (U : Type 0) (progress : Option (Callback U ProgressEvent)) (u : U)
      → (open_entry ref t ≡ (err unready, t))
        × (read C P ref t ≡ (err unready, t))
        × (extract C P dest selection wrapper strict preserve progress u t ≡ (err unready, t))
  unfolding open_entry read extract ◌>>=◌
  left_lem adds s {t} r ref dest selection wrapper strict preserve U progress u =
      let h = refused_after_leaving t (Reach-Keeps adds law (aexit-Left s) r) in (rw h, rw h, rw h)
