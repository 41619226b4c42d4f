-- ===== src/Kitchen/KitchenWorker/Lifetime.antt =====
-- `KitchenWorker::run` from its start to its end: the rounds of the loop, and what follows it.
pub mod Passing
pub mod Looping
pub mod Answered
pub mod Ready
pub mod Joining
pub mod Examples
use plazza.Prelude.{
  ℕ, ◌≡◌, Bool, true, false, not, ◌&&◌, List, [], ◌∷◌, ◌++◌, Option, none, some, get_elem?,
}
use plazza.Pizza.Recipe.{PizzaRecipe}
use plazza.Ipc.{Packet}
use plazza.Kitchen.Cook.{Cook}
use plazza.Kitchen.IngredientStock.{IngredientStock, regen}
use plazza.Kitchen.ThreadPool.{Place, Worker, ThreadPool}
use plazza.Kitchen.ThreadPool.Steps.{Move, put}
use plazza.Kitchen.KitchenWorker.{
  KitchenWorker, Round, receive_one, check_idle, is_shutdown, loop, finish,
}
use plazza.Kitchen.KitchenWorker.Steps.{new_worker, with_pool, dropped}
use plazza.Reception.{Outcome, returned, threw}

-- The loop is over.
abbrev pub ended_with : Outcome KitchenWorker → Outcome (KitchenWorker × Bool)
ended_with (returned w) = returned (w, false)
ended_with (threw e w) = threw e (w, false)

-- The loop has ended, or goes on when the rounds are out.
abbrev pub closed :
    (KitchenWorker → Outcome KitchenWorker)
    → Outcome (KitchenWorker × Bool)
    → Outcome (KitchenWorker × Bool)
closed f (threw e a) = threw e a
closed f (returned (worker, true)) = returned (worker, true)
closed f (returned (worker, false)) = ended_with (f worker)

module _ (send_error : Packet → Option (List ℕ)) where
  -- `join` is what the threads still do until they are joined.
  unfoldable pub run :
      List Round → (ThreadPool → ThreadPool) → ℕ → ℕ → Outcome (KitchenWorker × Bool)
  unfolding new_worker loop finish
  run rounds join n_cooks now =
      closed (finish send_error join) (loop send_error rounds (new_worker n_cooks now))

-- What the threads of the cooks and the regeneration do, in any order, while the main loop does
-- nothing, with the pizzas that they drop.
pub data Threads (s : ThreadPool) : List PizzaRecipe → ThreadPool → Type 0 where
  still : Threads s [] s
  moves :
      {lost : List PizzaRecipe} {t : ThreadPool} (i : ℕ) (w : Worker) (u : ThreadPool) (c : Cook)
      (to : Place)
      → Threads s lost t
      → get_elem? t.workers i ≡ some w
      → (move : Move t w.cook w.place u c to) → Threads s (lost ++ dropped move) (put u i c to)
  restocks :
      {lost : List PizzaRecipe} {t : ThreadPool} (stock : IngredientStock)
      → Threads s lost t
      → regen t.stock ≡ some stock
      → Threads s lost (record t { stock = stock })

abbrev pub taken_of : Option Packet → List Packet
taken_of none = []
taken_of (some packet) = packet ∷ []

-- The loop from a worker on to the worker that it leaves at its end, with the packets that it has
-- received, oldest first, and the pizzas that the threads have dropped meanwhile. The first worker
-- and the rounds settle which packets these are.
module _ (send_error : Packet → Option (List ℕ)) where
  pub data Looped
      : List Round → KitchenWorker → List Packet → List PizzaRecipe → KitchenWorker → Type 0 where
    last_round :
        {s w t : KitchenWorker} {lost : List PizzaRecipe} {on : Bool} (round : Round)
        (rounds : List Round)
        → receive_one send_error round.received_at round.received s ≡ returned w
        → Threads w.pool lost (round.threads w.pool)
        → check_idle send_error round.checked_at (with_pool (round.threads w.pool) w) ≡ (t, on)
        → on && not (is_shutdown send_error round.received) ≡ false
        → Looped (round ∷ rounds) s (taken_of round.received) lost t
    one_round :
        {s w t u : KitchenWorker} {lost more : List PizzaRecipe} {taken : List Packet} {on : Bool}
        (round : Round) (rounds : List Round)
        → receive_one send_error round.received_at round.received s ≡ returned w
        → Threads w.pool lost (round.threads w.pool)
        → check_idle send_error round.checked_at (with_pool (round.threads w.pool) w) ≡ (t, on)
        → on && not (is_shutdown send_error round.received) ≡ true
        → Looped rounds t taken more u
        → Looped (round ∷ rounds) s (taken_of round.received ++ taken) (lost ++ more) u
