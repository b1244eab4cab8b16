-- ===== src/Archive/Retry.antt =====
-- Opening again with another password behind an open that failed.
use newtua_py.Base.{ℕ, ◌≡◌, refl, String, true, Option, none, some, [], ◌∷◌}
use newtua_py.Errors.{Exc, ok, err, class_of, is_exception, raise_for}
use newtua_py.Exec.{◌>>=◌}
use newtua_py.Listing.{Bytes}
use newtua_py.Host.{Disk, add_temp, release_some, release}
use newtua_py.Host.Release.{unlink_added}
use newtua_py.Engine.{Engine, Platform, NewNames}
use newtua_py.Archive.{Source, path, bytes, file, init}
use newtua_py.Archive.Opening.{open_reader, set_password, drop_tempfile, backing_path, call_open}
use newtua_py.Archive.History.{start}

-- What is written into the temporary file, if there is one.
abbrev pub spilled : Source → Option Bytes
spilled (path _) = none
spilled (bytes content) = some content
spilled (file _ rest none) = some rest
spilled (file _ _ (some _)) = none

-- What a source has left when it was copied, and what the next copy of it holds.
abbrev pub copied_once : Source → Source
copied_once (path p) = path p
copied_once (bytes content) = bytes content
copied_once (file name _ fault) = file name [] fault

abbrev pub second_copy : Source → Bytes
second_copy (path _) = []
second_copy (bytes content) = content
second_copy (file _ _ _) = []

module _ (E : Engine) (P : Platform) where
  -- Let the engine raise an `Exception` for the copy of a new archive's bytes, or of a file object
  -- that can be read to its end. Then `_open` raises the typed counterpart, the disk is as it was
  -- before, and nothing of the archive has changed but that the file object is at its end. If the
  -- password is set then, the next open hands the engine a second copy: of all the bytes, if the
  -- source is bytes, but an empty one, if it is a file object.
  pub failed_open_lem :
      NewNames P
      → (self_id : ℕ) (source : Source) (password encoding : Option String) (disk : Disk)
        (content : Bytes) (exc : Exc)
      → spilled source ≡ some content
      → E.open_archive ((P.temp_name disk, content) ∷ disk) (P.temp_name disk) password encoding
        ≡ err exc
      → is_exception (class_of exc) ≡ true
      → let (r, s) = open_reader E P (start E.Reader self_id source password encoding disk) in
        (r ≡ raise_for exc)
        × (s.host.disk ≡ disk)
        × (s.archive ≡ init self_id (copied_once source) password encoding)
        × ((value : Option String) (reader : E.Reader)
            → E.open_archive
                ((P.temp_name disk, second_copy source) ∷ disk)
                (P.temp_name disk)
                value
                encoding
              ≡ ok reader
            → (open_reader E P (set_password value s)).0 ≡ ok reader)
  unfolding open_reader backing_path call_open drop_tempfile set_password release_some release
      add_temp ◌>>=◌
  failed_open_lem fresh self_id (path _) password encoding disk content exc h raises ordinary = cc
  failed_open_lem fresh self_id (bytes c) password encoding disk content exc h raises ordinary =
      let same : c ≡ content = cc in
      let failed : E.open_archive ((P.temp_name disk, c) ∷ disk) (P.temp_name disk) password
            encoding
          ≡ err exc =
        rw same raises in
      let again = unlink_added (P.temp_name disk) c disk (fresh disk) in
      rw (failed, ordinary, again) (refl, refl, refl, λ value reader opened. rw opened refl)
  failed_open_lem fresh self_id (file name rest none) password encoding disk content exc h raises
        ordinary =
      let same : rest ≡ content = cc in
      let failed : E.open_archive ((P.temp_name disk, rest) ∷ disk) (P.temp_name disk) password
            encoding
          ≡ err exc =
        rw same raises in
      let again = unlink_added (P.temp_name disk) rest disk (fresh disk) in
      rw (failed, ordinary, again) (refl, refl, refl, λ value reader opened. rw opened refl)
  failed_open_lem fresh self_id (file name rest (some e)) password encoding disk content exc h
        raises ordinary =
      cc
