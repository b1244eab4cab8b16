-- ===== src/Batch/Delivery.antt =====
-- The loops that collect the outcomes, fill the results and call the callbacks.
use newtua_py.Base.{
  ℕ, ◌<◌, ◌≤◌, ◌≡◌, ◌≢◌, refl, sym, ap, ◌∙◌, subst, arith, ◌⊎◌, inl, inr, Option, none, some, List,
  [], ◌∷◌, length, map, get_elem?, set, length-set, get_elem?-set_self, get_elem?-set_ne,
  get_elem?-lt,
}
use newtua_py.Errors.{Result, ok, err, as_typed}
use newtua_py.Exec.{continue, ◌>>=◌}
use newtua_py.Batch.Pool.{Outcome, collected}
use newtua_py.Batch.{BatchResult, Callbacks, notify, deliver_to, deliver}
use newtua_py.Batch.Order.{result_of, slots, slot_at, Agree, Mentions, Ordinary, Quiet, outcome_of}

pub collected_lem :
    {A : Type 0} (outs : List (Result A)) (futures : List (ℕ × Result A))
    → Ordinary outs
    → Agree outs futures
    → collected futures ≡ ok (map outcome_of futures)
unfolding collected
collected_lem outs [] ordinary agree = refl
collected_lem outs ((i, ok value) ∷ futures) ordinary (p, agree) =
    rw (collected_lem outs futures ordinary agree)
collected_lem outs ((i, err exc) ∷ futures) ordinary (p, agree) =
    rw (ordinary i exc p, collected_lem outs futures ordinary agree)

notify-Quiet :
    {W J A : Type 0} (callbacks : Callbacks W J A)
    → Quiet callbacks
    → (job : J) (r : Result A) (w : W)
    → (notify callbacks job (result_of job r).value (result_of job r).error w).0 ≡ ok tt
unfolding notify ◌>>=◌
notify-Quiet (some f, none) quiet job (ok value) w = quiet.0 f job value w refl
notify-Quiet (some f, some g) quiet job (ok value) w = quiet.0 f job value w refl
notify-Quiet (none, none) quiet job (ok value) w = refl
notify-Quiet (none, some g) quiet job (ok value) w = refl
notify-Quiet (none, none) quiet job (err exc) w = refl
notify-Quiet (some f, none) quiet job (err exc) w = refl
notify-Quiet (none, some g) quiet job (err exc) w = quiet.1 g job (as_typed exc) w refl
notify-Quiet (some f, some g) quiet job (err exc) w = quiet.1 g job (as_typed exc) w refl

module _ {J A : Type 0} (jobs : List J) (outs : List (Result A)) where
  -- Each place holds what belongs there in the end, or nothing yet.
  pub record Partly (results : List (Option (BatchResult J A))) : Type 0 where
    pub same_length : length results ≡ length jobs
    pub filled :
        (i : ℕ)
        → (get_elem? results i ≡ get_elem? (slots jobs outs) i) ⊎ (get_elem? results i ≡ some none)

  -- A place that holds what belongs there.
  abbrev pub Done : List (Option (BatchResult J A)) → ℕ → Type 0
  Done results i = get_elem? results i ≡ get_elem? (slots jobs outs) i

  same_place : (i j : ℕ) → (i ≡ j) ⊎ (i ≢ j)
  same_place i j = ground arith

  set-Done :
      (results : List (Option (BatchResult J A))) (i : ℕ) (v : Option (BatchResult J A))
      → i < length results
      → get_elem? (slots jobs outs) i ≡ some v
      → (j : ℕ) → (i ≡ j) ⊎ Done results j
      → Done (set results i v) j
  set-Done results i v h belongs j before = elim (same_place i j) [
    | inl same ↦
        subst (Done (set results i v)) same (get_elem?-set_self results i v h ∙ sym belongs)
    | inr differs ↦ elim before [
      | inl same ↦ absurd (differs same)
      | inr done ↦ get_elem?-set_ne results i j v differs ∙ done
    ]
  ]

  set-Partly :
      (results : List (Option (BatchResult J A))) (i : ℕ) (v : Option (BatchResult J A))
      → Partly results
      → i < length results
      → get_elem? (slots jobs outs) i ≡ some v
      → Partly (set results i v)
  set-Partly results i v h bound belongs = record {
    same_length = length-set results i v ∙ h.same_length;
    filled = λ j. elim (h.filled j) [
      | inl done ↦ inl (set-Done results i v bound belongs j (inr done))
      | inr empty ↦ elim (same_place i j) [
        | inl same ↦ inl (set-Done results i v bound belongs j (inl same))
        | inr differs ↦ inr (get_elem?-set_ne results i j v differs ∙ empty)
      ]
    ];
  }

  nothing_left :
      (results : List (Option (BatchResult J A))) (i : ℕ)
      → Done results i ⊎ Mentions {A = A} i []
      → Done results i
  nothing_left results i (inl done) = done
  nothing_left results i (inr none_left) = elim none_left [ ]

  -- What is done behind one more future: what was, its own place, and what the others mention.
  sooner :
      (r : Result A) (results : List (Option (BatchResult J A))) (i : ℕ)
      (v : Option (BatchResult J A))
      → i < length results
      → get_elem? (slots jobs outs) i ≡ some v
      → (futures : List (ℕ × Result A)) (j : ℕ) → Done results j ⊎ Mentions j ((i, r) ∷ futures)
      → Done (set results i v) j ⊎ Mentions j futures
  sooner r results i v h belongs futures j (inl done) =
      inl (set-Done results i v h belongs j (inr done))
  sooner r results i v h belongs futures j (inr (inl same)) =
      inl (set-Done results i v h belongs j (inl (sym same)))
  sooner r results i v h belongs futures j (inr (inr later)) = inr later

  -- The whole loop.
  module _ {W : Type 0} (callbacks : Callbacks W J A) (quiet : Quiet callbacks)
      (fits : length outs ≤ length jobs) where
    pub record Delivered (futures : List (ℕ × Result A)) (results : List (Option (BatchResult J A)))
        (w : W) : Type 0 where
      pub final : List (Option (BatchResult J A))
      pub returned : (deliver callbacks jobs (map outcome_of futures) results w).0 ≡ ok final
      pub partly : Partly final
      pub done : (i : ℕ) → Done results i ⊎ Mentions i futures → Done final i

    deliver_one :
        (i : ℕ) (r : Result A) (raw : List (Outcome A)) (results : List (Option (BatchResult J A)))
        (w : W) (job : J)
        → get_elem? jobs i ≡ some job
        → deliver callbacks jobs (outcome_of (i, r) ∷ raw) results w
          ≡ deliver callbacks jobs raw
              (set results i (some (result_of job r)))
              (notify callbacks job (result_of job r).value (result_of job r).error w).1
    unfolding deliver deliver_to ◌>>=◌
    deliver_one i (ok value) raw results w job p =
        ap
          (λ o. deliver_to callbacks o (i, some value, none) (deliver callbacks jobs raw) results w)
          p
        ∙ ap
            (λ r.
              continue r
                (λ _. deliver callbacks jobs raw (set results i (some (result_of job (ok value)))))
                (notify callbacks job (some value) none w).1)
            (notify-Quiet callbacks quiet job (ok value) w)
    deliver_one i (err exc) raw results w job p =
        ap
          (λ o.
            deliver_to callbacks o (i, none, some (as_typed exc)) (deliver callbacks jobs raw)
              results w)
          p
        ∙ ap
            (λ r.
              continue r
                (λ _. deliver callbacks jobs raw (set results i (some (result_of job (err exc)))))
                (notify callbacks job none (some (as_typed exc)) w).1)
            (notify-Quiet callbacks quiet job (err exc) w)

    pub deliver_all :
        (futures : List (ℕ × Result A)) (results : List (Option (BatchResult J A))) (w : W)
        → Agree outs futures
        → Partly results
        → Delivered futures results w
    unfolding deliver ◌>>=◌
    deliver_all [] results w agree h = record {
      final = results;
      returned = refl;
      partly = h;
      done = nothing_left results;
    }
    deliver_all ((i, r) ∷ futures) results w (p, agree) h =
        let (job, at_job, at_slot) = slot_at jobs outs i r fits p in
        let bound = get_elem?-lt jobs i job at_job in
        let v = some (result_of job r) in
        let inside : i < length results = omega (arith, h.same_length) in
        let w' = (notify callbacks job (result_of job r).value (result_of job r).error w).1 in
        let rest =
          deliver_all futures (set results i v) w' agree
            (set-Partly results i v h inside at_slot) in
        record {
          final = rest.final;
          returned =
              ap (λ q. q.0) (deliver_one i r (map outcome_of futures) results w job at_job)
              ∙ rest.returned;
          partly = rest.partly;
          done = λ j d. rest.done j (sooner r results i v inside at_slot futures j d);
        }
