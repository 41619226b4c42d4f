-- ===== src/Kitchen/KitchenWorker/Lifetime/Answered.antt =====
-- A kitchen that has closed has answered what it received.
use plazza.Prelude.{
  total-append, ℕ, zero, suc, ◌+◌, ◌<◌, ◌≡◌, refl, ap, inl, inr, ◌⊎◌, false, List, [], ◌∷◌, ◌++◌,
  Option, none, ◌∙◌, total, arith, All, length,
}
use plazza.Pizza.{Pizza}
use plazza.Pizza.Recipe.{PizzaRecipe}
use plazza.Ipc.{Packet}
use plazza.Kitchen.ThreadPool.{ThreadPool, Worker, ended, start, launch, hire, stop}
use plazza.Kitchen.KitchenWorker.{KitchenWorker, Round, shutdown_packet, push_result, send, finish}
use plazza.Kitchen.KitchenWorker.Steps.{new_worker, with_pool}
use plazza.Kitchen.KitchenWorker.Weights.{
  ordered_in, answered_in, of_recipe, in_hand_at, in_hand, in_work,
}
use plazza.Kitchen.KitchenWorker.Conservation.{new_worker-empty}
use plazza.Kitchen.KitchenWorker.Lifetime.{
  Threads, still, moves, restocks, Looped, ended_with, closed, run,
}
use plazza.Kitchen.KitchenWorker.Lifetime.Passing.{
  gone_at, gone, Kept, IsRunning, Leaves, Move-Leaves, total-gone, Threads-keeps,
}
use plazza.Kitchen.KitchenWorker.Lifetime.Looping.{Looped-Kept, Looped-loop}
use plazza.Reception.{returned}

abbrev pub IsEnded : Worker → Type 0
IsEnded w = w.place ≡ ended

-- No thread ends before the queue is empty, and then it stays so.
Threads-empty :
    {s t : ThreadPool} {lost : List PizzaRecipe}
    → Threads s lost t
    → total gone s.workers ≡ 0
    → (total gone t.workers ≡ 0) ⊎ (t.queue ≡ [])
Threads-empty still none_gone = inl none_gone
Threads-empty (moves {t = t} i w u c to run at move) none_gone =
    let leaves : Leaves t u w.place to = Move-Leaves move in
    elim (Threads-empty run none_gone) [
      | inr empty ↦ inr (leaves.stays_empty empty)
      | inl nobody ↦ elim leaves.only_then [
        | inr (stopped, empty) ↦ inr empty
        | inl stays ↦ inl (total-gone t u i w c to at leaves.same_workers stays nobody)
      ]
    ]
Threads-empty (restocks stock run e) none_gone = Threads-empty run none_gone

All-gone : (ws : List Worker) → All IsEnded ws → total gone ws ≡ length ws
All-gone [] all = refl
All-gone (w ∷ ws) (e, all) = omega (arith, ap gone_at e, All-gone ws all)

module _ (f : Pizza → ℕ) where
  All-in_hand : (ws : List Worker) → All IsEnded ws → total (in_hand f) ws ≡ 0
  All-in_hand [] all = refl
  All-in_hand (w ∷ ws) (e, all) = omega (arith, ap (in_hand_at f) e, All-in_hand ws all)

  -- Threads that have all ended have left nothing.
  joined-empty :
      {s t : ThreadPool} {lost : List PizzaRecipe}
      → Threads s lost t
      → total gone s.workers ≡ 0
      → All IsEnded t.workers
      → 0 < length t.workers
      → in_work f t ≡ 0
  joined-empty {t = t} run none_gone all some_cook = elim (Threads-empty run none_gone) [
    | inl nobody ↦ absurd (omega (arith, nobody, All-gone t.workers all))
    | inr empty ↦ omega (arith, ap (total (of_recipe f)) empty, All-in_hand t.workers all)
  ]

  hire-none_gone : (id n : ℕ) → total gone (launch (hire id n)) ≡ 0
  unfolding hire launch
  hire-none_gone id zero = refl
  hire-none_gone id (suc n) = omega (arith, hire-none_gone (suc id) n)

  new_worker-IsRunning : (n_cooks now : ℕ) → IsRunning (new_worker n_cooks now).pool
  unfolding new_worker start
  new_worker-IsRunning n_cooks now = record { runs = refl; none_gone = hire-none_gone 0 n_cooks }

  -- What the kitchen has answered, with what was dropped, weighs as much as what it received.
  abbrev pub IsAnswered : List Packet → List PizzaRecipe → KitchenWorker → Type 0
  IsAnswered taken lost worker =
      total (answered_in f) worker.pool.results + total (of_recipe f) lost
      ≡ total (ordered_in f) taken

  module _ (send_error : Packet → Option (List ℕ)) where
    -- The packet that announces the end carries no pizza.
    ending :
        (taken : List Packet) (lost : List PizzaRecipe) (worker : KitchenWorker)
        → send_error shutdown_packet ≡ none
        → IsAnswered taken lost worker
        → (done : KitchenWorker) × (send send_error shutdown_packet worker ≡ returned done)
          × IsAnswered taken lost done
    unfolding send
    ending taken lost worker e v = (
      push_result shutdown_packet worker,
      rw (send, e) refl,
      omega (arith, v, total-append (answered_in f) worker.pool.results (shutdown_packet ∷ [])),
    )

    -- Where the loop of a kitchen has come to its end, in which it received the packets `taken` and
    -- its threads dropped the pizzas `dropped`, where the threads have gone on after `stop`, in
    -- whatever order, and dropped the pizzas `lost`, until all of at least one have ended, and where
    -- the last packet can be sent: `run` returns, and the kitchen has answered each pizza that it
    -- received, as done or as refused, but for those dropped. That is, for any weight of pizzas,
    -- those in its Done and Full packets weigh, with those dropped, as much as those received.
    pub run-IsAnswered :
        (rounds : List Round) (n_cooks now : ℕ) (join : ThreadPool → ThreadPool)
        (worker : KitchenWorker) (taken : List Packet) (dropped lost : List PizzaRecipe)
        → Looped send_error rounds (new_worker n_cooks now) taken dropped worker
        → Threads (stop worker.pool) lost (join (stop worker.pool))
        → All IsEnded (join (stop worker.pool)).workers
        → 0 < length (join (stop worker.pool)).workers
        → send_error shutdown_packet ≡ none
        → (done : KitchenWorker) × (run send_error rounds join n_cooks now ≡ returned (done, false))
          × IsAnswered taken (dropped ++ lost) done
    unfolding run finish stop new_worker
    run-IsAnswered rounds n_cooks now join worker taken dropped lost looped threads all some_cook
          sends =
        let kept : Kept f (new_worker n_cooks now) taken dropped worker =
          Looped-Kept f send_error looped (inl refl) in
        let running : IsRunning worker.pool = kept.running (new_worker-IsRunning n_cooks now) in
        let joined : KitchenWorker = with_pool (join (stop worker.pool)) worker in
        let answers : IsAnswered taken (dropped ++ lost) joined = omega (
          arith,
          kept.weight,
          new_worker-empty f send_error n_cooks now,
          Threads-keeps f threads,
          joined-empty threads running.none_gone all some_cook,
          total-append (of_recipe f) dropped lost,
        ) in
        let (done, e, answered) = ending taken (dropped ++ lost) joined sends answers in
        (
          done,
          ap (closed (finish send_error join)) (Looped-loop send_error looped) ∙ ap ended_with e,
          answered,
        )
