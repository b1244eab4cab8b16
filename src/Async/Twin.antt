-- ===== src/Async/Twin.antt =====
-- Reading through an `AsyncArchive` beside reading through an `Archive`.
pub mod Extraction
use newtua_py.Base.{ℕ, ◌≡◌, refl, inl, inr, String, List, Bool, Bool-cases, Option, none, some, []}
use newtua_py.Errors.{Result, ok, err, Result-cases, typed, class_of, is_exception, raise_for}
use newtua_py.Exec.{Exec, gets, lift, ◌>>=◌}
use newtua_py.Listing.{Bytes, Ref, resolve_index}
use newtua_py.Listing.Detached.{resolve_index-detach, entries_from_raw-detach}
use newtua_py.Events.{RawEvent, Callback}
use newtua_py.Async.Access.Selection.{as_ints}
use newtua_py.Host.{Disk, Host, exists, add_temp, new_host}
use newtua_py.Engine.{Engine, PathCalls, Platform}
use newtua_py.Archive.{Archive, State, Source, path, bytes, file}
use newtua_py.Archive
use newtua_py.Archive.Opening.{backing_path, call_open, open_reader, listing}
use newtua_py.Archive.Access
use newtua_py.Archive.Access.{index_of}
use newtua_py.Archive.History
use newtua_py.Async
use newtua_py.Async.{
  AsyncState, AsyncArchive, aenter, close_sync, on_sync, list_into, keep_listing, keep_built,
  keep_path, give_up, ensure_ready,
}
use newtua_py.Async.Access.{read}
use newtua_py.Async.History.{start}

-- What a call by path comes to: the archive is opened for it again.
abbrev pub opened_for : {R A : Type 0} → Result R → (R → Result A) → Result A
opened_for (ok reader) f = f reader
opened_for (err exc) f = err exc

abbrev pub with_opened : {R A S : Type 0} → Result R → S → (R → Result A × S) → Result A × S
with_opened (ok reader) s f = f reader
with_opened (err exc) s f = (err exc, s)

-- The calls by path are those of a reader that is opened from the path.
pub record SameEngine (E : Engine) (C : PathCalls) (P : Platform) : Type 1 where
  pub lists :
      (d : Disk) (p : String) (password encoding : Option String)
      → C.list_path d p password encoding
        ≡ opened_for
            (E.open_archive d p password encoding)
            (λ r. ok (E.entries r, E.format r, E.detected_encoding r))
  pub reads :
      (d : Disk) (p : String) (i : ℕ) (password encoding : Option String)
      → C.read_path d p i password encoding
        ≡ opened_for (E.open_archive d p password encoding) (λ r. E.read r d i)
  pub extracts :
      (U : Type 0) (d : Disk) (u : U) (p : String) (password encoding : Option String)
      (dest : String) (selection : Option (List ℕ)) (wrapper strict preserve : Bool)
      (name_source : Option String) (callback : Option (Callback U RawEvent))
      → C.extract_path U
          (record {
            archive = p;
            dest = dest;
            selection = as_ints selection;
            wrapper = wrapper;
            strict = strict;
            preserve = preserve;
            name_source = name_source;
            password = password;
            encoding = encoding;
          })
          callback
          (d, u)
        ≡ with_opened
            (E.open_archive d p password encoding)
            (d, u)
            (λ r.
              E.extract U r
                (record {
                  dest = dest;
                  selection = selection;
                  wrapper = wrapper;
                  strict = strict;
                  preserve = preserve;
                  name_source = name_source;
                })
                callback
                (d, u))
  pub times : C.fromtimestamp ≡ P.fromtimestamp

-- Both archives behind `_backing_path`.
module _ (h : Host) (self_id : ℕ) (source : Source) (password encoding : Option String)
    (tempfile : Option ℕ) where
  abbrev pub backed : (R : Type 0) → State R
  backed R = record {
    archive = record (Archive.init self_id source password encoding) { tempfile = tempfile };
    host = h;
  }

  abbrev pub async_backed : String → AsyncState
  async_backed p = record {
    archive = record (Async.init self_id source password encoding) {
      sync = (backed Unit).archive;
      path = some p;
    };
    host = h;
  }

module _ (E : Engine) (C : PathCalls) (P : Platform) (same : SameEngine E C P) where
  -- The rest of `Archive.read` behind `_open`.
  reading : Ref → E.Reader → Exec (State E.Reader) Bytes
  reading ref reader = index_of E P ref >>= λ index.
      gets (λ s. s.host.disk) >>= λ disk. lift (typed (E.read reader disk index))

  opened_twin :
      (h : Host) (self_id : ℕ) (source : Source) (password encoding : Option String)
      (tempfile : Option ℕ) (p : String) (ref : Ref)
      → ((list_into C P p >>= λ _. read C P ref)
          (async_backed h self_id source password encoding tempfile p)).0
        ≡ ((call_open E P p >>= reading ref)
            (backed h self_id source password encoding tempfile E.Reader)).0
  unfolding ◌>>=◌ read ensure_ready list_into keep_listing keep_built open_reader listing index_of
      call_open reading raise_for
  opened_twin h self_id source password encoding tempfile p ref =
      elim (Result-cases (E.open_archive h.disk p password encoding)) [
        | inr (exc, failed) ↦ elim (Bool-cases (is_exception (class_of exc))) [
          | inl ordinary ↦ rw (same.lists, failed, ordinary) refl
          | inr base ↦ rw (same.lists, failed, base) refl
        ]
        | inl (reader, opened) ↦
            elim (entries_from_raw-detach P.fromtimestamp self_id (E.entries reader)) [
              | inl (exc, a, b) ↦ rw (same.lists, opened, same.times, a, b) refl
              | inr (es, d, d', a, b) ↦ elim (Result-cases (resolve_index es ref)) [
                | inr (exc, failed) ↦
                    rw (same.lists, opened, same.times, a, b, resolve_index-detach, failed) refl
                | inl (i, found) ↦
                    rw
                      (
                        same.lists, opened, same.times, a, b, resolve_index-detach, found,
                        same.reads, opened,
                      )
                      refl
              ]
            ]
      ]

  -- Entering a new `AsyncArchive` and awaiting its `read` comes to what `read` of a new `Archive`
  -- over the same source comes to, the same bytes or the same exception, for every source, password
  -- and way to name the entry.
  pub twin_read :
      (self_id : ℕ) (source : Source) (password encoding : Option String) (disk : Disk) (ref : Ref)
      → ((aenter C P >>= λ _. read C P ref) (start self_id source password encoding disk)).0
        ≡ (Access.read E P ref (History.start E.Reader self_id source password encoding disk)).0
  unfolding ◌>>=◌ aenter keep_path give_up backing_path open_reader Access.read reading
  twin_read self_id (path p) password encoding disk ref =
      elim (Bool-cases (exists (P.path_text p) disk)) [
        | inl there ↦ rw there (
            opened_twin (new_host disk) self_id (path p) password encoding none (P.path_text p) ref)
        | inr missing ↦ rw missing refl
      ]
  twin_read self_id (bytes content) password encoding disk ref =
      opened_twin (add_temp (P.temp_name disk) content (new_host disk)) self_id (bytes content)
        password encoding (some 0) (P.temp_name disk) ref
  twin_read self_id (file name rest none) password encoding disk ref =
      opened_twin (add_temp (P.temp_name disk) rest (new_host disk)) self_id (file name [] none)
        password encoding (some 0) (P.temp_name disk) ref
  twin_read self_id (file name rest (some exc)) password encoding disk ref = refl
