-- ===== src/Async/Access/Kept.antt =====
-- Invariants of streaming, reading and extracting.
use newtua_py.Base.{ℕ, ◌≡◌, String, Bool, true, Option, none, some, List}
use newtua_py.Exec.Keeps.{
  Keeps, Keeps-bind, Keeps-gets, Keeps-lift, Keeps-raise, Keeps-pure, either,
}
use newtua_py.Errors.{Result}
use newtua_py.Listing.{Bytes, Entry, Ref}
use newtua_py.Events.{ProgressEvent, Callback, wrapped}
use newtua_py.Host.{Disk, Host, exists}
use newtua_py.Host.Pipes.{pipe_posix, pipe_windows}
use newtua_py.Engine.{
  PathExtraction, PathCalls, RemovesNothing, OsName, posix, nt, other_os, Platform,
}
use newtua_py.Archive.{Archive, has_own_path}
use newtua_py.Async.{AsyncArchive, AsyncState, on_machine, ensure_ready}
use newtua_py.Async.Access.{
  AsyncStreamCtx, open_entry, aclose, ctx_aenter, ctx_aexit, open_pipe_posix, open_pipe_windows,
  open_pipe_on, open_pipe_sync, read, call_read, extract, selected, call_extract,
}

module _ {I : AsyncState → Type 0} where
  ensure_ready-Keeps : Keeps I ensure_ready
  unfolding ensure_ready
  ensure_ready-Keeps = record { at = λ s h. h }

  pub open_entry-Keeps : (ref : Ref) → Keeps I (open_entry ref)
  unfolding open_entry
  open_entry-Keeps ref = Keeps-bind _ _ ensure_ready-Keeps λ ready.
      Keeps-bind _ _ (Keeps-gets _) λ entries.
        Keeps-bind _ _ (Keeps-lift _) λ index. Keeps-bind _ _ (Keeps-lift _) λ e. Keeps-pure _

  pub ctx_aexit-Keeps :
      ((address : ℕ) (s : AsyncState) → I s → I (aclose address s))
      → (ctx : AsyncStreamCtx) (s : AsyncState) → I s
      → I (ctx_aexit ctx s)
  unfolding ctx_aexit
  ctx_aexit-Keeps stream_closed ctx s h = exit_by ctx.stream
    where
      exit_by : (o : Option ℕ) → I (elim o [ none ↦ s | some address ↦ aclose address s ])
      exit_by none = h
      exit_by (some address) = stream_closed address s h

  module _ (C : PathCalls) (P : Platform) where
    pub ctx_aenter-Keeps :
        ((index size : ℕ) → Keeps I (open_pipe_sync C P index size))
        → (ctx : AsyncStreamCtx) → Keeps I (ctx_aenter C P ctx)
    unfolding ctx_aenter
    ctx_aenter-Keeps piped ctx = Keeps-bind _ _ (piped ctx.index ctx.size) λ address. Keeps-pure _

    pub read-Keeps : (ref : Ref) → Keeps I (read C P ref)
    unfolding read
    read-Keeps ref = Keeps-bind _ _ ensure_ready-Keeps λ ready.
        Keeps-bind _ _ (Keeps-gets _) λ entries.
          Keeps-bind _ _ (Keeps-lift _) λ index. unfold call_read in record { at = λ s h. h }

    selected-Keeps :
        (entries : List Entry) (selection : Option (List Ref))
        → Keeps I (selected entries selection)
    unfolding selected
    selected-Keeps entries none = Keeps-pure _
    selected-Keeps entries (some refs) = Keeps-bind _ _ (Keeps-lift _) λ indices. Keeps-pure _

    module _ (adds : RemovesNothing C)
        (grown : (s : AsyncState) (d : Disk)
          → ((path : String) → exists path s.host.disk ≡ true → exists path d ≡ true)
          → I s
          → I (record s { host = record s.host { disk = d } }))
        {U : Type 0} (progress : Option (Callback U ProgressEvent)) (u : U) where
      call_extract-Keeps : (args : PathExtraction) → Keeps I (call_extract C P args progress u)
      unfolding call_extract
      call_extract-Keeps args = record {
        at = λ s. grown s _ (λ p there. adds U args (wrapped progress) s.host.disk u p there);
      }

      pub extract-Keeps :
          (dest : String) (selection : Option (List Ref)) (wrapper strict preserve : Bool)
          → Keeps I (extract C P dest selection wrapper strict preserve progress u)
      unfolding extract
      extract-Keeps dest selection wrapper strict preserve =
          Keeps-bind _ _ ensure_ready-Keeps λ ready.
            Keeps-bind _ _ (Keeps-gets _) λ a.
              Keeps-bind _ _ (selected-Keeps a.entries selection) λ indices. call_extract-Keeps _

-- An invariant of the inner archive and of the machine.
module _ (J : Archive (Unit {0}) → Host → Type 0) where
  module _ (C : PathCalls) (P : Platform)
      (on_posix : (a : Archive (Unit {0})) (open_stream : Disk → Result Bytes) (expected : Option ℕ)
        → Keeps (J a) (pipe_posix open_stream a.tempfile expected))
      (on_windows : (a : Archive (Unit {0})) (open_stream : Disk → Result Bytes)
          (expected : Option ℕ)
        → Keeps (J a) (pipe_windows open_stream expected)) where
    open_pipe_on-Keeps :
        (os : OsName) (p : String) (index expected : ℕ)
        → Keeps (λ s. J s.archive.sync s.host) (open_pipe_on C P os p index expected)
    unfolding open_pipe_on open_pipe_posix open_pipe_windows
    open_pipe_on-Keeps posix p index expected = record {
      at = λ s. (on_posix s.archive.sync _ (some expected)).at s.host;
    }
    open_pipe_on-Keeps nt p index expected = record {
      at = λ s h.
          let build =
            pipe_windows
              (λ disk.
                C.open_stream_windows_path disk p index s.archive.password s.archive.encoding)
              (some expected) in
          either (λ (s : AsyncState). J s.archive.sync s.host) (has_own_path s.archive.sync.source)
            _ _
            (either (λ (s : AsyncState). J s.archive.sync s.host) P.is_win32 (on_machine build s) _
              ((on_windows s.archive.sync _ (some expected)).at s.host h) h)
            h;
    }
    open_pipe_on-Keeps other_os p index expected = Keeps-raise _

    pub open_pipe_sync-Keeps :
        (index expected : ℕ)
        → Keeps (λ s. J s.archive.sync s.host) (open_pipe_sync C P index expected)
    unfolding open_pipe_sync
    open_pipe_sync-Keeps index expected =
        Keeps-bind _ _ (Keeps-gets _) λ at_path.
          Keeps-bind _ _ (Keeps-lift _) λ p. open_pipe_on-Keeps P.os_name p index expected

-- Making a stream leaves the archive as it is.
module _ (J : AsyncArchive → Type 0) (C : PathCalls) (P : Platform) where
  open_pipe_on-archive :
      (os : OsName) (p : String) (index expected : ℕ)
      → Keeps (λ s. J s.archive) (open_pipe_on C P os p index expected)
  unfolding open_pipe_on open_pipe_posix open_pipe_windows
  open_pipe_on-archive posix p index expected = record { at = λ s h. h }
  open_pipe_on-archive nt p index expected = record {
    at = λ s h.
        either (λ (s : AsyncState). J s.archive) (has_own_path s.archive.sync.source) _ _
          (either (λ (s : AsyncState). J s.archive) P.is_win32
            (on_machine (pipe_windows _ (some expected)) s) _ h h)
          h;
  }
  open_pipe_on-archive other_os p index expected = Keeps-raise _

  pub open_pipe_sync-archive :
      (index expected : ℕ) → Keeps (λ s. J s.archive) (open_pipe_sync C P index expected)
  unfolding open_pipe_sync
  open_pipe_sync-archive index expected =
      Keeps-bind _ _ (Keeps-gets _) λ at_path.
        Keeps-bind _ _ (Keeps-lift _) λ p. open_pipe_on-archive P.os_name p index expected
