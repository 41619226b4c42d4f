-- ===== src/Reception/LoadBalancer/Polling/Rounds.antt =====
-- What a round of polling leaves pending: only kitchens that have not answered.
use plazza.Prelude.{
  ℕ, ◌≡◌, refl, sym, ◌∙◌, inl, inr, Bool, true, false, List, [], ◌∷◌, All, Bool-cases, ◌==◌,
}
use plazza.Reception.{KitchenHandle, Outcome, returned, threw, DoneCallback}
use plazza.Reception.LoadBalancer.Outcomes.{OnReturn}
use plazza.Reception.LoadBalancer.Polling.{
  State, Processed, Polled, keep_id, after_kitchen, process_pending_kitchen, poll_round,
}
use plazza.Reception.LoadBalancer.Polling.Answered.{
  answered, Erases, Spares, process_pending_kitchen-Erases, process_pending_kitchen-Spares,
}

-- The numbers are different.
abbrev pub Distinct : List ℕ → Type 0
Distinct [] = Unit
Distinct (id ∷ ids) = All (λ other. (id == other) ≡ false) ids × Distinct ids

-- `P` holds of every number that stays pending, and these are different.
abbrev pub Leaves : {S : Type 0} → (ℕ → Type 0) → Polled S → Type 0
Leaves P polled = All P polled.1 × Distinct polled.1

abbrev pub And : (ℕ → Type 0) → (ℕ → Type 0) → ℕ → Type 0
And P Q id = P id × Q id

pub All-map : (P Q : ℕ → Type 0) (ids : List ℕ) → ((id : ℕ) → P id → Q id) → All P ids → All Q ids
All-map P Q [] f h = tt
All-map P Q (id ∷ ids) f h = (f id h.0, All-map P Q ids f h.1)

All-both : (P Q : ℕ → Type 0) (ids : List ℕ) → All P ids → All Q ids → All (And P Q) ids
All-both P Q [] h k = tt
All-both P Q (id ∷ ids) h k = ((h.0, k.0), All-both P Q ids h.1 k.1)

module _ {S : Type 0} (done_cb : DoneCallback S) (P : ℕ → Type 0) (ks : List KitchenHandle) where
  -- What is known of a number that stays pending, once the kitchens are `ks`.
  abbrev pub Pending : ℕ → Type 0
  Pending id = P id × (answered id ks ≡ false)

  -- The same, for the numbers behind `first`, at the kitchens that `first` has left.
  abbrev pub Later : ℕ → List KitchenHandle → ℕ → Type 0
  Later first js id = (P id × ((first == id) ≡ false)) × (answered id js ≡ false)

  keep_id-Leaves :
      (first : ℕ) (remove : Bool) (js : List KitchenHandle) (m : Outcome (Polled S))
      → P first
      → (remove ≡ false → answered first ks ≡ false)
      → ((id : ℕ) → (first == id) ≡ false → answered id js ≡ answered id ks)
      → OnReturn (Leaves (Later first js)) m
      → OnReturn (Leaves Pending) (keep_id done_cb remove first m)
  keep_id-Leaves first remove js (threw e polled) p a spares h = tt
  keep_id-Leaves first true js (returned (state, ids)) p a spares (all, distinct) = (
    All-map (Later first js) Pending ids (λ id h. (h.0.0, sym (spares id h.0.1) ∙ h.1)) all,
    distinct,
  )
  keep_id-Leaves first false js (returned (state, ids)) p a spares (all, distinct) = (
    (
      (p, a refl),
      All-map (Later first js) Pending ids (λ id h. (h.0.0, sym (spares id h.0.1) ∙ h.1)) all,
    ),
    (All-map (Later first js) (λ id. (first == id) ≡ false) ids (λ id h. h.0.1) all, distinct),
  )

  erases :
      (first : ℕ) (remove : Bool)
      → (answered first ks ≡ true → remove ≡ true)
      → remove ≡ false
      → answered first ks ≡ false
  erases first remove h e = elim (Bool-cases (answered first ks)) [
    | inl a ↦ let yes_it = h a in absurd (cc)
    | inr a ↦ a
  ]

  after_kitchen-Leaves :
      (first : ℕ) (rest : State S → Outcome (Polled S)) (m : Outcome (Processed S))
      → P first
      → (answered first ks ≡ true → OnReturn (Erases done_cb) m)
      → ((id : ℕ) → (first == id) ≡ false → OnReturn (Spares done_cb id ks) m)
      → ((state : State S) → OnReturn (Leaves (Later first state.0)) (rest state))
      → OnReturn (Leaves Pending) (after_kitchen done_cb first rest m)
  after_kitchen-Leaves first rest (threw e p) h a s r = tt
  after_kitchen-Leaves first rest (returned (state, remove)) h a s r =
      keep_id-Leaves first remove state.0 (rest state) h (erases first remove a) s (r state)

pub poll_round-Leaves :
    {S : Type 0} (done_cb : DoneCallback S) (P : ℕ → Type 0) (ids : List ℕ) (state : State S)
    → Distinct ids
    → All P ids
    → OnReturn (Leaves (Pending done_cb P state.0)) (poll_round done_cb ids state)
unfolding poll_round
poll_round-Leaves done_cb P [] state d h = (tt, tt)
poll_round-Leaves done_cb P (id ∷ ids) state d h =
    after_kitchen-Leaves done_cb P state.0 id (poll_round done_cb ids)
      (process_pending_kitchen done_cb id state.0 state.1) h.0
      (process_pending_kitchen-Erases done_cb id state.0 state.1)
      (λ other. process_pending_kitchen-Spares done_cb id other state.0 state.1)
      (λ later.
        poll_round-Leaves done_cb (And P (λ other. (id == other) ≡ false)) ids later d.1
          (All-both P (λ other. (id == other) ≡ false) ids h.1 d.0))
