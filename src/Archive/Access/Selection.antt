-- ===== src/Archive/Access/Selection.antt =====
-- An extraction behind `_open`, on an archive whose listing can be built.
use newtua_py.Base.{
  ℕ, ◌≡◌, refl, ap, ◌∙◌, ◌⊎◌, inl, inr, String, Bool, Option, none, some, List, [], ◌∷◌,
}
use newtua_py.Errors.{Exc, Result, ok, err, Result-cases, ◌>>=◌}
use newtua_py.Exec
use newtua_py.Exec.{Exec, pure, lift, gets, continue}
use newtua_py.Events.{ProgressEvent, Callback}
use newtua_py.Listing.{Entry, Ref, resolve_index, resolve_all}
use newtua_py.Engine.{Report, ExtractArgs, Engine, Platform}
use newtua_py.Archive.{State, Source, wrapper_name_source}
use newtua_py.Archive.Opening.{listing}
use newtua_py.Archive.Opening.Steps.{listing-some}
use newtua_py.Archive.Access.{index_of, indices_of, selected, call_extract}

-- The positions of a selection in a listing.
abbrev pub chosen : List Entry → Option (List Ref) → Result (Option (List ℕ))
chosen es none = ok none
chosen es (some refs) = resolve_all es refs >>= λ indices. ok (some indices)

module _ (E : Engine) (P : Platform) where
  index_of_listed :
      (ref : Ref) (s t : State E.Reader) (es : List Entry)
      → listing E P s ≡ (ok es, t)
      → index_of E P ref s ≡ (resolve_index es ref, t)
  unfolding index_of Exec.◌>>=◌
  index_of_listed ref s t es h =
      ap
        (λ (p : Result (List Entry) × State E.Reader).
          continue p.0 (λ es. lift (resolve_index es ref)) p.1)
        h

  -- With a listing, each reference is looked up in it, and nothing changes.
  indices_of-some :
      (refs : List Ref) (t : State E.Reader) (es : List Entry)
      → t.archive.entries ≡ some es
      → indices_of E P refs t ≡ (resolve_all es refs, t)
  unfolding indices_of resolve_all Exec.◌>>=◌
  indices_of-some [] t es h = refl
  indices_of-some (ref ∷ refs) t es h = elim (Result-cases (resolve_index es ref)) [
    | inr (exc, failed) ↦ rw (index_of_listed ref t t es (listing-some E P t es h), failed) refl
    | inl (i, found) ↦ elim (Result-cases (resolve_all es refs)) [
      | inr (exc, failed) ↦
          rw
            (
              index_of_listed ref t t es (listing-some E P t es h),
              found,
              indices_of-some refs t es h,
              failed,
            )
            refl
      | inl (is_at, rest) ↦
          rw
            (
              index_of_listed ref t t es (listing-some E P t es h),
              found,
              indices_of-some refs t es h,
              rest,
            )
            refl
    ]
  ]

  -- Where the first look builds the listing, the references after it find it kept.
  indices_of_listed :
      (ref : Ref) (refs : List Ref) (s t : State E.Reader) (es : List Entry)
      → listing E P s ≡ (ok es, t)
      → t.archive.entries ≡ some es
      → indices_of E P (ref ∷ refs) s ≡ (resolve_all es (ref ∷ refs), t)
  unfolding indices_of resolve_all Exec.◌>>=◌
  indices_of_listed ref refs s t es h kept = elim (Result-cases (resolve_index es ref)) [
    | inr (exc, failed) ↦ rw (index_of_listed ref s t es h, failed) refl
    | inl (i, found) ↦ elim (Result-cases (resolve_all es refs)) [
      | inr (exc, failed) ↦
          rw (index_of_listed ref s t es h, found, indices_of-some refs t es kept, failed) refl
      | inl (is_at, rest) ↦
          rw (index_of_listed ref s t es h, found, indices_of-some refs t es kept, rest) refl
    ]
  ]

  then_some :
      (r : Result (List ℕ)) (t : State E.Reader)
      → continue r (λ is_at. pure (some is_at)) t ≡ (r >>= λ indices. ok (some indices), t)
  unfolding Exec.◌>>=◌
  then_some (ok is_at) t = refl
  then_some (err exc) t = refl

  selected-some :
      (refs : List Ref) (s t : State E.Reader) (r : Result (List ℕ))
      → indices_of E P refs s ≡ (r, t)
      → selected E P (some refs) s ≡ (r >>= λ indices. ok (some indices), t)
  unfolding selected Exec.◌>>=◌
  selected-some refs s t r h =
      ap (λ (p : Result (List ℕ) × State E.Reader). continue p.0 (λ is_at. pure (some is_at)) p.1) h
      ∙ then_some r t

  nothing_selected :
      (s : State E.Reader)
      → (selected E P none s ≡ (ok none, s)) × (indices_of E P [] s ≡ (ok [], s))
  unfolding selected indices_of Exec.◌>>=◌
  nothing_selected s = (refl, refl)

  -- A selection is looked up in the one listing; the state is that before the listing or behind it.
  pub selected_listed :
      (selection : Option (List Ref)) (s t : State E.Reader) (es : List Entry)
      → listing E P s ≡ (ok es, t)
      → t.archive.entries ≡ some es
      → (s' : State E.Reader) × (selected E P selection s ≡ (chosen es selection, s'))
        × ((s' ≡ s) ⊎ (s' ≡ t))
  unfolding resolve_all
  selected_listed none s t es h kept = (s, (nothing_selected s).0, inl refl)
  selected_listed (some []) s t es h kept =
      (s, selected-some [] s s (ok []) ((nothing_selected s).1), inl refl)
  selected_listed (some (ref ∷ refs)) s t es h kept = (
    t,
    selected-some (ref ∷ refs) s t (resolve_all es (ref ∷ refs))
        (indices_of_listed ref refs s t es h kept),
    inr refl,
  )

  -- What `extract` does behind `_open`.
  module _ (dest : String) (selection : Option (List Ref)) (wrapper strict preserve : Bool)
      {U : Type 0} (progress : Option (Callback U ProgressEvent)) (u : U) where
    abbrev pub args_for : Option (List ℕ) → Source → ExtractArgs
    args_for indices source = record {
      dest = dest;
      selection = indices;
      wrapper = wrapper;
      strict = strict;
      preserve = preserve;
      name_source = wrapper_name_source source;
    }

    unfoldable pub extracting : E.Reader → Exec (State E.Reader) (Result Report × U)
    unfolding Exec.◌>>=◌
    extracting reader = Exec.◌>>=◌ (selected E P selection) λ indices.
        Exec.◌>>=◌ (gets (λ s. s.archive.source))
          λ source. call_extract E P reader (args_for indices source) progress u

    pub extracting-err :
        (reader : E.Reader) (s s' : State E.Reader) (exc : Exc)
        → selected E P selection s ≡ (err exc, s')
        → extracting reader s ≡ (err exc, s')
    unfolding extracting Exec.◌>>=◌
    extracting-err reader s s' exc h = rw h refl

    pub extracting-ok :
        (reader : E.Reader) (s s' : State E.Reader) (indices : Option (List ℕ))
        → selected E P selection s ≡ (ok indices, s')
        → extracting reader s
          ≡ call_extract E P reader (args_for indices s'.archive.source) progress u s'
    unfolding extracting Exec.◌>>=◌
    extracting-ok reader s s' indices h = rw h refl
