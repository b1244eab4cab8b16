-- ===== src/Async/Entering.antt =====
-- A failed `__aenter__`, and what it does to the machine.
use newtua_py.Base.{ℕ, ◌≡◌, arith, String, true, Option, none, some, [], ◌∷◌}
use newtua_py.Errors.{Exc, err, class_of, is_exception, raise_for}
use newtua_py.Exec.{◌>>=◌}
use newtua_py.Listing.{Bytes}
use newtua_py.Host.{Disk, add_temp, release_some, release}
use newtua_py.Engine.{PathCalls, Platform, NewNames}
use newtua_py.Archive.{Source, path, bytes, file}
use newtua_py.Host.Release.{unlink_added}
use newtua_py.Archive.Retry.{spilled}
use newtua_py.Archive.Opening.{backing_path, close}
use newtua_py.Async.{aenter, close_sync, list_into, keep_listing, keep_path}
use newtua_py.Async.History.{start}

module _ (C : PathCalls) (P : Platform) where
  -- Entering a new `AsyncArchive` over bytes, or over a file object that can be read to its end,
  -- where `list_path` raises an `Exception` on the file that they were written to: `__aenter__`
  -- raises the typed counterpart, the inner archive holds nothing, and the files on the disk are
  -- those from before.
  pub failed_aenter_lem :
      NewNames P
      → (self_id : ℕ) (source : Source) (password encoding : Option String) (disk : Disk)
        (content : Bytes) (exc : Exc)
      → spilled source ≡ some content
      → C.list_path ((P.temp_name disk, content) ∷ disk) (P.temp_name disk) password encoding
        ≡ err exc
      → is_exception (class_of exc) ≡ true
      → let r = aenter C P (start self_id source password encoding disk) in
        (r.0 ≡ raise_for exc)
        × (r.1.archive.sync.tempfile ≡ none)
        × (r.1.archive.entries ≡ [])
        × (r.1.host.disk ≡ disk)
  unfolding aenter backing_path close_sync close release_some release list_into keep_listing
      keep_path add_temp ◌>>=◌
  failed_aenter_lem fresh self_id (path _) password encoding disk content exc h raises ordinary = cc
  failed_aenter_lem fresh self_id (bytes c) password encoding disk content exc h raises ordinary =
      let same : c ≡ content = cc in
      ground (arith, unlink_added (P.temp_name disk) content disk (fresh disk))
  failed_aenter_lem fresh self_id (file name rest none) password encoding disk content exc h raises
        ordinary =
      let same : rest ≡ content = cc in
      ground (arith, unlink_added (P.temp_name disk) content disk (fresh disk))
  failed_aenter_lem fresh self_id (file name rest (some e)) password encoding disk content exc h
        raises ordinary =
      cc
