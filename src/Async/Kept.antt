-- ===== src/Async/Kept.antt =====
-- Invariants of entering, leaving and streaming.
use newtua_py.Base.{String, List}
use newtua_py.Errors.{Result, ok, err, class_of, is_exception, raise_for}
use newtua_py.Exec.{◌>>=◌}
use newtua_py.Exec.Keeps.{Keeps, Keeps-bind, Keeps-gets, Keeps-lift, Keeps-if, either}
use newtua_py.Listing.{RawEntry}
use newtua_py.Host.{Host}
use newtua_py.Engine.{PathCalls, Platform}
use newtua_py.Archive.{Archive, State}
use newtua_py.Archive.Opening.{backing_path, close}
use newtua_py.Async.{
  AsyncState, on_sync, close_sync, aenter, aexit, keep_listing, keep_built, list_into, give_up,
  keep_path,
}

-- An invariant of the inner archive and of the machine.
module _ (J : Archive (Unit {0}) → Host → Type 0) where
  abbrev pub Inside : AsyncState → Type 0
  Inside s = J s.archive.sync s.host

  module _
      (closed : (t : State (Unit {0}))
        → J t.archive t.host
        → J (close t).archive (close t).host) where
    pub close_sync-Keeps : (s : AsyncState) → Inside s → Inside (close_sync s)
    unfolding close_sync ◌>>=◌
    close_sync-Keeps s = closed (record { archive = s.archive.sync; host = s.host })

    pub aexit-Keeps : (s : AsyncState) → Inside s → Inside (aexit s)
    unfolding aexit
    aexit-Keeps s = close_sync-Keeps s

    module _ (C : PathCalls) (P : Platform)
        (backed : Keeps (λ (t : State (Unit {0})). J t.archive t.host) (backing_path P Unit)) where
      keep_listing-Keeps :
          (r : Result (List RawEntry × String × String)) → Keeps Inside (keep_listing C P r)
      unfolding keep_listing keep_built ◌>>=◌
      keep_listing-Keeps (ok (raw, fmt, enc)) = record {
        at =
            (Keeps-bind _ (keep_built C P fmt enc) (Keeps-lift _)
              (λ built. record { at = λ s h. h })).at;
      }
      keep_listing-Keeps (err exc) = record {
        at = λ s h.
            either Inside (is_exception (class_of exc)) (raise_for exc, close_sync s) (err exc, s)
              (close_sync-Keeps s h) h;
      }

      list_into-Keeps : (p : String) → Keeps Inside (list_into C P p)
      unfolding list_into
      list_into-Keeps p = record { at = λ s. (keep_listing-Keeps _).at s }

      keep_path-Keeps : (p : String) → Keeps Inside (keep_path C P p)
      unfolding keep_path ◌>>=◌
      keep_path-Keeps p = record { at = λ s h. h }

      pub aenter-Keeps : Keeps Inside (aenter C P)
      unfolding aenter give_up
      aenter-Keeps =
          Keeps-bind (on_sync (backing_path P Unit)) _
            (record { at = λ s. backed.at (record { archive = s.archive.sync; host = s.host }) })
            λ p. Keeps-bind (keep_path C P p) _ (keep_path-Keeps p) λ kept.
              Keeps-bind _ _ (Keeps-gets _) λ missing.
                Keeps-if missing _ _ (record { at = λ s. close_sync-Keeps s }) (list_into-Keeps p)
