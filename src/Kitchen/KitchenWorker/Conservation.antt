-- ===== src/Kitchen/KitchenWorker/Conservation.antt =====
-- No pizza appears or disappears in a kitchen.
use plazza.Prelude.{
  total-append, ℕ, ◌+◌, ◌≡◌, refl, sym, ap, ◌∙◌, List, [], ◌∷◌, ◌++◌, append-nil, append_assoc,
  Option, arith, total, Bool, if_both, subst, inl, zero, suc,
}
use plazza.Pizza.{Pizza}
use plazza.Pizza.Recipe.{PizzaRecipe}
use plazza.Pizza.FactoryLaws.{IsBuiltIn}
use plazza.Ipc.{Packet}
use plazza.Kitchen.ThreadPool.{start, launch, hire, stop}
use plazza.Kitchen.ThreadPool.Capacity.{IsValid, same-IsValid, work-IsValid}
use plazza.Kitchen.KitchenWorker.{KitchenWorker, shutdown_packet, check_idle}
use plazza.Kitchen.KitchenWorker.Steps.{
  new_worker, dropped, Step, receives, checks, works, ends, stops, regenerates, Run, begun,
  then_step,
}
use plazza.Kitchen.KitchenWorker.Weights.{
  ordered_in, in_hand, in_work, answered, of_recipe, held, Move-Keeps, work-keeps,
}
use plazza.Kitchen.KitchenWorker.Weights
use plazza.Kitchen.KitchenWorker.Sending.{Gains, send-Gains}
use plazza.Kitchen.KitchenWorker.Receiving.{receive_one-Gains}
use plazza.Reception.LoadBalancer.Outcomes.{OnReturn}

module _ (f : Pizza → ℕ) (send_error : Packet → Option (List ℕ)) where
  -- The check looks at the load and keeps a time.
  abbrev pub Keeps : KitchenWorker → KitchenWorker × Bool → Type 0
  Keeps s answer = (answer.0.pool ≡ s.pool) × (answer.0.registry ≡ s.registry)

  pub check_idle-Keeps : (now : ℕ) (s : KitchenWorker) → Keeps s (check_idle send_error now s)
  unfolding check_idle
  check_idle-Keeps now s = if_both (Keeps s) _ _ _ (refl, refl) (refl, refl)

  -- What a step does to the weights and to the queue of results.
  pub record Balances (s : KitchenWorker) (taken : List Packet) (lost : List PizzaRecipe)
      (t : KitchenWorker) : Type 0 where
    pub weight : held f t + total (of_recipe f) lost ≡ held f s + total (ordered_in f) taken
    pub built : IsBuiltIn t.registry
    pub valid : IsValid s.pool → IsValid t.pool
    pub sent : List Packet
    pub grows : t.pool.results ≡ s.pool.results ++ sent

  module _ {s t : KitchenWorker} (built : IsBuiltIn s.registry) where
    Gains-Balances :
        (n : ℕ) (taken : List Packet)
        → total (ordered_in f) taken ≡ n
        → Gains f send_error n s t
        → Balances s taken [] t
    Gains-Balances n taken e gains = record {
      weight = omega (arith, gains.weight);
      built = gains.built built;
      valid = gains.valid;
      sent = gains.sent;
      grows = gains.grows;
    }

    silent :
        held f t ≡ held f s
        → t.registry ≡ s.registry
        → t.pool.results ≡ s.pool.results
        → (IsValid s.pool → IsValid t.pool)
        → Balances s [] [] t
    silent h r e v = record {
      weight = omega (arith, h);
      built = subst IsBuiltIn (sym r) built;
      valid = v;
      sent = [];
      grows = e ∙ sym (append-nil s.pool.results);
    }

  pub Step-Balances :
      {s t : KitchenWorker} {taken : List Packet} {lost : List PizzaRecipe}
      → Step send_error s taken lost t
      → IsBuiltIn s.registry
      → Balances s taken lost t
  unfolding stop
  Step-Balances {s} (receives now packet t e) built =
      Gains-Balances built (ordered_in f packet) (packet ∷ []) (omega arith) (
        subst (OnReturn (Gains f send_error (ordered_in f packet) s)) e
          (receive_one-Gains f send_error now packet s built))
  Step-Balances {s} (checks now t goes_on e) built =
      let keeps : Keeps s (t, goes_on) = subst (Keeps s) e (check_idle-Keeps now s) in
      silent built (ap (λ p. answered f p + in_work f p) keeps.0) keeps.1
        (ap (λ p. p.results) keeps.0) (subst IsValid (sym keeps.0))
  Step-Balances {s} (works i w t c to at move) built =
      let keeps : Weights.Keeps f s.pool t w.place to (dropped move) = Move-Keeps f move in
      record {
        weight = omega (arith, work-keeps f s.pool t i w c to at move);
        built = built;
        valid = work-IsValid s.pool t i w c to at move;
        sent = keeps.sent;
        grows = keeps.grows;
      }
  Step-Balances {s} (ends t e) built =
      Gains-Balances built 0 [] refl
        (subst (OnReturn (Gains f send_error 0 s)) e (send-Gains f send_error shutdown_packet s))
  Step-Balances stops built = silent built refl refl refl (same-IsValid refl refl refl refl)
  Step-Balances (regenerates stock r) built =
      silent built refl refl refl (same-IsValid refl refl refl refl)

  Run-Balances :
      {s t : KitchenWorker} {taken : List Packet} {lost : List PizzaRecipe}
      → Run send_error s taken lost t
      → IsBuiltIn s.registry
      → Balances s taken lost t
  Run-Balances begun built = silent built refl refl refl (λ v. v)
  Run-Balances {s} (then_step {taken} {more} {lost} {fewer} run step) built =
      let before = Run-Balances run built in
      let after = Step-Balances step before.built in
      record {
        weight = omega (
          arith,
          before.weight,
          after.weight,
          total-append (ordered_in f) taken more,
          total-append (of_recipe f) lost fewer,
        );
        built = after.built;
        valid = λ v. after.valid (before.valid v);
        sent = before.sent ++ after.sent;
        grows =
            after.grows
            ∙ ap (λ r. r ++ after.sent) before.grows
            ∙ append_assoc s.pool.results before.sent after.sent;
      }

  -- A kitchen that has just been started has no pizza.
  hire-empty : (id n : ℕ) → total (in_hand f) (launch (hire id n)) ≡ 0
  unfolding hire launch
  hire-empty id zero = refl
  hire-empty id (suc n) = omega (arith, hire-empty (suc id) n)

  pub new_worker-empty : (n_cooks now : ℕ) → held f (new_worker n_cooks now) ≡ 0
  unfolding new_worker start
  new_worker-empty n_cooks now = omega (arith, hire-empty 0 n_cooks)

  -- From the start of a kitchen on, however its main loop, its cooks' threads and the regeneration
  -- of its stock interleave, as long as the main loop throws nothing: for any weight of pizzas, the
  -- pizzas of the orders received weigh exactly as much as those that the kitchen has answered
  -- as done or as refused, those in its queue, those in the hands of its cooks and those dropped by
  -- a cook, so that each kind of pizza is answered at most as often as it was ordered.
  pub Run-conserves :
      (n_cooks now : ℕ) {t : KitchenWorker} {taken : List Packet} {lost : List PizzaRecipe}
      → Run send_error (new_worker n_cooks now) taken lost t
      → held f t + total (of_recipe f) lost ≡ total (ordered_in f) taken
  unfolding new_worker
  Run-conserves n_cooks now run =
      omega (arith, (Run-Balances run (inl refl)).weight, new_worker-empty n_cooks now)
