-- ===== src/Archive/Access/Lifetime.antt =====
-- Invariants of looking things up, reading and extracting.
use newtua_py.Base.{◌≡◌, true, String, Bool, Option, none, some, List, [], ◌∷◌}
use newtua_py.Exec.Keeps.{Keeps, keeps_rules, Keeps-bind, Keeps-gets, Keeps-lift, Keeps-pure}
use newtua_py.Paths.{PurePosixPath}
use newtua_py.Events.{ProgressEvent, Callback, wrapped}
use newtua_py.Listing.{Entry, Ref, at, named, under, entry}
use newtua_py.Listing.Slices.{Slice}
use newtua_py.Host.{Disk, exists}
use newtua_py.Engine.{ExtractArgs, Engine, Platform, DeletesNothing}
use newtua_py.Archive.{State}
use newtua_py.Archive.Opening.{open_reader, listing}
use newtua_py.Archive.Access.{
  len, by_path, item, get_item, get_slice, Key, is_entry, is_name, is_path, is_other, in_index,
  contains, format, detected_encoding, encrypted_in_listing, needs_password, index_of, read,
  entry_read, indices_of, selected, call_extract, extract,
}

module _ (E : Engine) (P : Platform) {I : State E.Reader → Type 0}
    (opens : Keeps I (open_reader E P)) (lists : Keeps I (listing E P)) where
  pub len-Keeps : Keeps I (len E P)
  unfolding len
  len-Keeps = search (keeps_rules, lists) depth 12

  by_path-Keeps : (p : PurePosixPath) (name : String) → Keeps I (by_path E P p name)
  unfolding by_path
  by_path-Keeps p name = search keeps_rules

  item-Keeps : (key : Ref) (entries : List Entry) → Keeps I (item E P key entries)
  unfolding item
  item-Keeps (at i) entries = search keeps_rules
  item-Keeps (named name) entries = by_path-Keeps _ _
  item-Keeps (under p) entries = by_path-Keeps _ _
  item-Keeps (entry e) entries = search keeps_rules

  pub get_item-Keeps : (key : Ref) → Keeps I (get_item E P key)
  unfolding get_item
  get_item-Keeps key = search (keeps_rules, lists, item-Keeps) depth 12

  pub get_slice-Keeps : (key : Slice) → Keeps I (get_slice E P key)
  unfolding get_slice
  get_slice-Keeps key = search (keeps_rules, lists) depth 12

  in_index-Keeps : (p : PurePosixPath) → Keeps I (in_index E P p)
  unfolding in_index
  in_index-Keeps p =
      Keeps-bind _ _ lists λ entries. Keeps-bind _ _ (Keeps-gets _) λ by_name. search keeps_rules

  pub contains-Keeps : (key : Key) → Keeps I (contains E P key)
  unfolding contains
  contains-Keeps (is_entry e) = search (keeps_rules, lists) depth 12
  contains-Keeps (is_name name) = in_index-Keeps _
  contains-Keeps (is_path p) = in_index-Keeps _
  contains-Keeps is_other = search keeps_rules

  pub format-Keeps : Keeps I (format E P)
  unfolding format
  format-Keeps = search (keeps_rules, opens) depth 12

  pub detected_encoding-Keeps : Keeps I (detected_encoding E P)
  unfolding detected_encoding
  detected_encoding-Keeps = search (keeps_rules, opens) depth 12

  encrypted_in_listing-Keeps : Keeps I (encrypted_in_listing E P)
  unfolding encrypted_in_listing
  encrypted_in_listing-Keeps = search (keeps_rules, lists) depth 12

  pub needs_password-Keeps : Keeps I (needs_password E P)
  unfolding needs_password
  needs_password-Keeps = record { at = λ s h. encrypted_in_listing-Keeps.at s h }

  pub index_of-Keeps : (ref : Ref) → Keeps I (index_of E P ref)
  unfolding index_of
  index_of-Keeps ref = search (keeps_rules, lists) depth 12

  pub read-Keeps : (ref : Ref) → Keeps I (read E P ref)
  unfolding read
  read-Keeps ref = Keeps-bind _ _ opens λ reader.
      Keeps-bind _ _ (index_of-Keeps ref)
        λ index. Keeps-bind _ _ (Keeps-gets _) λ disk. Keeps-lift _

  pub entry_read-Keeps : (e : Entry) → Keeps I (entry_read E P e)
  unfolding entry_read
  entry_read-Keeps e = search (keeps_rules, read-Keeps) depth 12

  indices_of-Keeps : (refs : List Ref) → Keeps I (indices_of E P refs)
  unfolding indices_of
  indices_of-Keeps [] = search keeps_rules
  indices_of-Keeps (ref ∷ refs) =
      Keeps-bind _ _ (index_of-Keeps ref)
        λ i. Keeps-bind _ _ (indices_of-Keeps refs) λ rest. Keeps-pure _

  selected-Keeps : (selection : Option (List Ref)) → Keeps I (selected E P selection)
  unfolding selected
  selected-Keeps none = search keeps_rules
  selected-Keeps (some refs) = search (keeps_rules, indices_of-Keeps) depth 12

  -- An extraction changes the disk alone, and deletes nothing.
  module _ (adds : DeletesNothing E)
      (grows : (s : State E.Reader) (d : Disk)
        → ((path : String) → exists path s.host.disk ≡ true → exists path d ≡ true)
        → I s
        → I (record s { host = record s.host { disk = d } }))
      {U : Type 0} (progress : Option (Callback U ProgressEvent)) (u : U) where
    call_extract-Keeps :
        (reader : E.Reader) (args : ExtractArgs) → Keeps I (call_extract E P reader args progress u)
    unfolding call_extract
    call_extract-Keeps reader args = record {
      at = λ s. grows s _ (λ p there. adds U reader args (wrapped progress) s.host.disk u p there);
    }

    pub extract-Keeps :
        (dest : String) (selection : Option (List Ref)) (wrapper strict preserve : Bool)
        → Keeps I (extract E P dest selection wrapper strict preserve progress u)
    unfolding extract
    extract-Keeps dest selection wrapper strict preserve = Keeps-bind _ _ opens λ reader.
        Keeps-bind _ _ (selected-Keeps selection)
          λ indices. Keeps-bind _ _ (Keeps-gets _) λ source. call_extract-Keeps reader _
