-- ===== src/Kitchen/KitchenWorker/Lifetime/Looping.antt =====
-- The rounds of the loop, one after the other.
use plazza.Prelude.{
  ℕ, ◌+◌, ◌≡◌, refl, sym, ap, ◌∙◌, subst, Bool, true, false, List, [], ◌∷◌, Option, none, some,
  total, arith,
}
use plazza.Pizza.{Pizza}
use plazza.Pizza.Recipe.{PizzaRecipe}
use plazza.Pizza.FactoryLaws.{IsBuiltIn}
use plazza.Ipc.{Packet}
use plazza.Kitchen.KitchenWorker.{KitchenWorker, Round, check_idle, receive_one, loop}
use plazza.Kitchen.KitchenWorker.Steps.{with_pool}
use plazza.Kitchen.KitchenWorker.Weights.{ordered_in, answered, in_work}
use plazza.Kitchen.KitchenWorker.Sending.{Gains}
use plazza.Kitchen.KitchenWorker.Receiving.{receive_one-Gains}
use plazza.Kitchen.KitchenWorker.Conservation.{Keeps, check_idle-Keeps}
use plazza.Kitchen.KitchenWorker.Lifetime.{Threads, taken_of, Looped, last_round, one_round}
use plazza.Kitchen.KitchenWorker.Lifetime.Passing.{
  gone, IsRunning, Threads-IsRunning, Threads-keeps, Kept, Kept-trans,
}
use plazza.Reception.{returned}
use plazza.Reception.LoadBalancer.Outcomes.{OnReturn, OnReturn-mono}

module _ (f : Pizza → ℕ) (send_error : Packet → Option (List ℕ)) where
  Gains-Kept :
      {s t : KitchenWorker} (packet : Packet)
      → Gains f send_error (ordered_in f packet) s t
      → Kept f s (packet ∷ []) [] t
  Gains-Kept {s} {t} packet gains = record {
    weight = omega (arith, gains.weight);
    built = gains.built;
    running = λ r. record {
      runs = gains.same_threads.1 ∙ r.runs;
      none_gone = ap (total gone) gains.same_threads.0 ∙ r.none_gone;
    };
  }

  same-Kept : {s t : KitchenWorker} → t.pool ≡ s.pool → t.registry ≡ s.registry → Kept f s [] [] t
  same-Kept {s} {t} p r = record {
    weight = omega (arith, ap (λ pool. answered f pool + in_work f pool) p);
    built = subst IsBuiltIn (sym r);
    running = subst IsRunning (sym p);
  }

  received-Kept :
      (now : ℕ) (received : Option Packet) (s : KitchenWorker)
      → IsBuiltIn s.registry
      → OnReturn (Kept f s (taken_of received) []) (receive_one send_error now received s)
  unfolding receive_one
  received-Kept now none s built = same-Kept refl refl
  received-Kept now (some packet) s built =
      OnReturn-mono (Gains f send_error (ordered_in f packet) s) (Kept f s (packet ∷ []) [])
        (receive_one send_error now (some packet) s) (λ t gains. Gains-Kept packet gains)
        (receive_one-Gains f send_error now packet s built)

  -- The packet, the threads, and the check.
  round-Kept :
      {s w t : KitchenWorker} {lost : List PizzaRecipe} {on : Bool} (round : Round)
      → receive_one send_error round.received_at round.received s ≡ returned w
      → Threads w.pool lost (round.threads w.pool)
      → check_idle send_error round.checked_at (with_pool (round.threads w.pool) w) ≡ (t, on)
      → IsBuiltIn s.registry
      → Kept f s (taken_of round.received) lost t
  round-Kept {s} {w} {t} {lost} round received threads checked built =
      let first : Kept f s (taken_of round.received) [] w =
        subst (OnReturn (Kept f s (taken_of round.received) [])) received
          (received-Kept round.received_at round.received s built) in
      let later : KitchenWorker = with_pool (round.threads w.pool) w in
      let keeps : Keeps f send_error later (t, true) =
        subst (λ (r : KitchenWorker × Bool). Keeps f send_error later (r.0, true)) checked
          (check_idle-Keeps f send_error round.checked_at later) in
      let last : Kept f later [] [] t = same-Kept keeps.0 keeps.1 in
      record {
        weight = omega (arith, first.weight, last.weight, Threads-keeps f threads);
        built = λ b. last.built (first.built b);
        running = λ r. last.running (Threads-IsRunning threads (first.running r));
      }

  pub Looped-Kept :
      {rounds : List Round} {s t : KitchenWorker} {taken : List Packet} {lost : List PizzaRecipe}
      → Looped send_error rounds s taken lost t
      → IsBuiltIn s.registry
      → Kept f s taken lost t
  Looped-Kept (last_round round rounds received threads checked ends) built =
      round-Kept round received threads checked built
  Looped-Kept (one_round round rounds received threads checked on later) built =
      let first = round-Kept round received threads checked built in
      Kept-trans f first (Looped-Kept later (first.built built))

-- The loop comes to the end that the relation has.
module _ (send_error : Packet → Option (List ℕ)) where
  pub Looped-loop :
      {rounds : List Round} {s t : KitchenWorker} {taken : List Packet} {lost : List PizzaRecipe}
      → Looped send_error rounds s taken lost t
      → loop send_error rounds s ≡ returned (t, false)
  unfolding loop
  Looped-loop (last_round round rounds received threads checked ends) =
      rw (received, loop, checked, ends) refl
  Looped-loop (one_round round rounds received threads checked on later) =
      rw (received, loop, checked, on) (Looped-loop later)
