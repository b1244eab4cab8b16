-- ===== src/Async/Twin/Extraction.antt =====
-- Extracting through an `AsyncArchive` beside extracting through an `Archive`.
use newtua_py.Base.{
  ℕ, ◌≡◌, refl, sym, ap, ◌∙◌, inl, inr, String, Bool, Bool-cases, Option, none, some, List, [], map,
}
use newtua_py.Errors.{Exc, Result, ok, err, Result-cases, typed, class_of, is_exception, raise_for}
use newtua_py.Exec.{Exec, continue, ◌>>=◌}
use newtua_py.Events.{ProgressEvent, Callback, wrapped}
use newtua_py.Listing.{Entry, Index, Ref, entries_from_raw}
use newtua_py.Listing.Build.{Documented, entries_from_raw-ok}
use newtua_py.Listing.Detached.{detach, entries_from_raw-detach}
use newtua_py.Host.{Disk, Host, release_some, exists, add_temp, new_host}
use newtua_py.Engine.{Report, with_state, Engine, PathCalls, Platform}
use newtua_py.Archive.{State, Source, wrapper_name_source, path, bytes, file}
use newtua_py.Archive.Opening.{backing_path, call_open, open_reader, listing, close, drop_tempfile}
use newtua_py.Archive.Opening.Steps.{with_listing}
use newtua_py.Archive.Access
use newtua_py.Archive.Access.{selected}
use newtua_py.Archive.Access.Selection.{
  chosen, selected_listed, extracting, extracting-err, extracting-ok,
}
use newtua_py.Archive.History
use newtua_py.Async.{
  AsyncState, aenter, close_sync, list_into, keep_listing, keep_built, keep_path, give_up,
  ensure_ready,
}
use newtua_py.Async.Access.{extract, call_extract}
use newtua_py.Async.Access.Selection.{extract-err, extract-ok}
use newtua_py.Async.History.{start}
use newtua_py.Async.Twin.{SameEngine, with_opened, backed, async_backed}

bind_to :
    {S A B : Type 0} (m : Exec S A) (k : A → Exec S B) {s t : S} {a : A}
    → m s ≡ (ok a, t)
    → (m >>= k) s ≡ k a t
unfolding ◌>>=◌
bind_to {S} {A} m k h = ap (λ (q : Result A × S). continue q.0 k q.1) h

not_both : {X : Type 0} {r : Result X} {a : X} {exc : Exc} → r ≡ ok a → r ≡ err exc → ⊥
not_both h k = cc

-- What is seen of an extraction: its result and the files.
abbrev pub seen : {X R : Type 0} → Result X × State R → Result X × Disk
seen (r, s) = (r, s.host.disk)

abbrev pub seen_async : {X : Type 0} → Result X × AsyncState → Result X × Disk
seen_async (r, s) = (r, s.host.disk)

module _ (E : Engine) (C : PathCalls) (P : Platform) (same : SameEngine E C P)
    (documented : Documented P.fromtimestamp) (dest : String) (selection : Option (List Ref))
    (wrapper strict preserve : Bool) {U : Type 0} (progress : Option (Callback U ProgressEvent))
    (u : U) where
  abbrev extracted : Exec AsyncState (Result Report × U)
  extracted = extract C P dest selection wrapper strict preserve progress u

  abbrev extracted_sync : E.Reader → Exec (State E.Reader) (Result Report × U)
  extracted_sync = extracting E P dest selection wrapper strict preserve progress u

  module _ (h : Host) (self_id : ℕ) (source : Source) (password encoding : Option String)
      (tempfile : Option ℕ) (p : String) where
    abbrev before : State E.Reader
    before = backed h self_id source password encoding tempfile E.Reader

    abbrev async_before : AsyncState
    async_before = async_backed h self_id source password encoding tempfile p

    -- Behind the open of the one, and the listing of the other.
    abbrev open_state : E.Reader → State E.Reader
    open_state reader = record before { archive = record before.archive { reader = some reader } }

    abbrev listed_state : E.Reader → List Entry → Index → AsyncState
    listed_state reader es d = record async_before {
      archive = record async_before.archive {
        entries = es;
        by_name = d;
        format = some (E.format reader);
        detected_encoding = some (E.detected_encoding reader);
      };
    }

    opens :
        (reader : E.Reader)
        → E.open_archive h.disk p password encoding ≡ ok reader
        → call_open E P p before ≡ (ok reader, open_state reader)
    unfolding call_open
    opens reader opened = rw opened refl

    lists :
        (reader : E.Reader) (es : List Entry) (d : Index)
        → entries_from_raw P.fromtimestamp (E.entries reader) (some self_id) ≡ ok (es, d)
        → listing E P (open_state reader) ≡ (ok es, with_listing E P (open_state reader) es d)
    unfolding listing open_reader ◌>>=◌
    lists reader es d built = rw built refl

    lists_async :
        (reader : E.Reader) (es : List Entry) (d : Index)
        → E.open_archive h.disk p password encoding ≡ ok reader
        → entries_from_raw P.fromtimestamp (E.entries reader) none ≡ ok (es, d)
        → list_into C P p async_before ≡ (ok tt, listed_state reader es d)
    unfolding list_into keep_listing keep_built ◌>>=◌
    lists_async reader es d opened built = rw (same.lists, opened, same.times, built) refl

    -- Both behind the listing, where the positions are found.
    same_call :
        (reader : E.Reader) (es : List Entry) (d : Index) (s : State E.Reader)
        (indices : Option (List ℕ))
        → E.open_archive h.disk p password encoding ≡ ok reader
        → s.host ≡ h
        → s.archive.source ≡ source
        → chosen es selection ≡ ok indices
        → (s' : State E.Reader) → selected E P selection s' ≡ (ok indices, s)
        → seen_async (extracted (listed_state reader (map detach es) d))
          ≡ seen (extracted_sync reader s')
    unfolding call_extract Access.call_extract ensure_ready
    same_call reader es d s indices opened on_h of_source found s' sel =
        ap seen_async (
          extract-ok C P dest selection wrapper strict preserve progress u
            (listed_state reader (map detach es) d) es indices refl refl found)
        ∙ rw (on_h, of_source)
            (ap (λ (q : Result Report × (Disk × U)). (with_state q.1.1 (typed q.0), q.1.0))
              (same.extracts U h.disk u p password encoding dest indices wrapper strict preserve
                  (wrapper_name_source source) (wrapped progress)
                ∙ ap
                    (λ r.
                      with_opened r (h.disk, u)
                        (λ r.
                          E.extract U r
                            (record {
                              dest = dest;
                              selection = indices;
                              wrapper = wrapper;
                              strict = strict;
                              preserve = preserve;
                              name_source = wrapper_name_source source;
                            })
                            (wrapped progress) (h.disk, u)))
                    opened))
        ∙ ap seen (
            sym (
              extracting-ok E P dest selection wrapper strict preserve progress u reader s' s
                indices sel))

    same_listed :
        (reader : E.Reader) (es : List Entry) (d d' : Index)
        → E.open_archive h.disk p password encoding ≡ ok reader
        → entries_from_raw P.fromtimestamp (E.entries reader) (some self_id) ≡ ok (es, d)
        → seen_async (extracted (listed_state reader (map detach es) d'))
          ≡ seen (extracted_sync reader (open_state reader))
    unfolding ensure_ready
    same_listed reader es d d' opened built =
        let s1 = open_state reader in
        let t1 = with_listing E P s1 es d in
        let (s', sel, which) =
          selected_listed E P selection s1 t1 es (lists reader es d built) refl in
        elim (Result-cases (chosen es selection)) [
          | inl (indices, found) ↦ elim which [
            | inl unlisted ↦
                same_call reader es d' s1 indices opened refl refl found s1
                  (sel ∙ ap (λ r. (r, s')) found ∙ ap (λ x. (ok indices, x)) unlisted)
            | inr listed ↦
                same_call reader es d' t1 indices opened refl refl found s1
                  (sel ∙ ap (λ r. (r, s')) found ∙ ap (λ x. (ok indices, x)) listed)
          ]
          | inr (exc, failed) ↦
              ap seen_async (
                extract-err C P dest selection wrapper strict preserve progress u
                  (listed_state reader (map detach es) d') es exc refl refl failed)
              ∙ ap (λ (x : Disk). (err exc, x))
                  (elim which [
                    | inl unlisted ↦ ap (λ (x : State E.Reader). x.host.disk) (sym unlisted)
                    | inr listed ↦ ap (λ (x : State E.Reader). x.host.disk) (sym listed)
                  ])
              ∙ ap seen (
                  sym (
                    extracting-err E P dest selection wrapper strict preserve progress u reader s1
                      s' exc (sel ∙ ap (λ r. (r, s')) failed)))
        ]

    opened_extract :
        seen_async ((list_into C P p >>= λ _. extracted) async_before)
        ≡ seen ((call_open E P p >>= extracted_sync) before)
    unfolding ◌>>=◌ list_into keep_listing call_open close_sync close drop_tempfile raise_for
    opened_extract = elim (Result-cases (E.open_archive h.disk p password encoding)) [
      | inr (exc, failed) ↦ elim (Bool-cases (is_exception (class_of exc))) [
        | inl ordinary ↦ rw (same.lists, failed, ordinary) refl
        | inr base ↦ rw (same.lists, failed, base) refl
      ]
      | inl (reader, opened) ↦
          let (es, d, built, _) =
            entries_from_raw-ok P.fromtimestamp documented (E.entries reader) (some self_id) in
          elim (entries_from_raw-detach P.fromtimestamp self_id (E.entries reader)) [
            | inl (exc, a, b) ↦ absurd (not_both built a)
            | inr (es, d, d', a, b) ↦
                ap seen_async (
                  bind_to (list_into C P p) (λ _. extracted)
                    (lists_async reader (map detach es) d' opened b))
                ∙ same_listed reader es d d' opened a
                ∙ ap seen (sym (bind_to (call_open E P p) extracted_sync (opens reader opened)))
          ]
    ]

  -- Entering a new `AsyncArchive` and awaiting its `extract` comes to what `extract` of a new
  -- `Archive` over the same source comes to: the same report, or the same exception, with the same
  -- state of the callback either way, and the same files, for every source, password, destination,
  -- selection and set of options. `datetime.fromtimestamp` is taken to fail in the documented ways only: without a
  -- selection, a synchronous archive extracts without building its listing.
  pub twin_extract :
      (self_id : ℕ) (source : Source) (password encoding : Option String) (disk : Disk)
      → seen_async ((aenter C P >>= λ _. extracted) (start self_id source password encoding disk))
        ≡ seen (
            Access.extract E P dest selection wrapper strict preserve progress u
              (History.start E.Reader self_id source password encoding disk))
  unfolding ◌>>=◌ aenter keep_path give_up backing_path open_reader Access.extract extracting
      close_sync close release_some
  twin_extract self_id (path p) password encoding disk =
      elim (Bool-cases (exists (P.path_text p) disk)) [
        | inl there ↦
            rw there (
              opened_extract (new_host disk) self_id (path p) password encoding none
                (P.path_text p))
        | inr missing ↦ rw missing refl
      ]
  twin_extract self_id (bytes content) password encoding disk =
      opened_extract (add_temp (P.temp_name disk) content (new_host disk)) self_id (bytes content)
        password encoding (some 0) (P.temp_name disk)
  twin_extract self_id (file name rest none) password encoding disk =
      opened_extract (add_temp (P.temp_name disk) rest (new_host disk)) self_id (file name [] none)
        password encoding (some 0) (P.temp_name disk)
  twin_extract self_id (file name rest (some exc)) password encoding disk = refl
