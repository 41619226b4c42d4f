-- ===== src/Kitchen/KitchenWorker/Steps.antt =====
-- A kitchen at work: its main loop, the threads of its cooks and the regeneration of its stock,
-- interleaved in any order. `taken` lists the packets that the main loop has received, oldest
-- first; `lost` the pizzas that a thread had in hand and dropped.
use plazza.Prelude.{ℕ, ◌≡◌, Bool, List, [], ◌∷◌, ◌++◌, Option, some, get_elem?}
use plazza.Pizza.Recipe.{PizzaRecipe}
use plazza.Pizza.Factory.{fresh_registry}
use plazza.Ipc.{Packet}
use plazza.Kitchen.IngredientStock.{IngredientStock, new_stock, initial_stock, regen}
use plazza.Kitchen.Cook.{Cook}
use plazza.Kitchen.ThreadPool.{Place, Worker, ThreadPool, start, stop}
use plazza.Kitchen.ThreadPool.Steps.{
  Move, pop, leave, begin, gather, give_up, abort, announce, lose, finish, release, put,
}
use plazza.Kitchen.KitchenWorker.{KitchenWorker, shutdown_packet, send, receive_one, check_idle}
use plazza.Reception.{returned}

-- The constructor, and the first two lines of `run`.
unfoldable pub new_worker : ℕ → ℕ → KitchenWorker
unfolding start new_stock
new_worker n_cooks now = record {
  pool = start n_cooks (new_stock initial_stock);
  registry = fresh_registry;
  last_active_time = now;
}

abbrev pub with_pool : ThreadPool → KitchenWorker → KitchenWorker
with_pool pool worker = record worker { pool = pool }

-- The pizza that a move drops: `cookPizza` is left without a Done packet.
abbrev pub dropped :
    {s t : ThreadPool} {c c' : Cook} {at to : Place} → Move s c at t c' to → List PizzaRecipe
dropped (give_up p needed n w) = p ∷ []
dropped (abort p e n) = p ∷ []
dropped (lose p) = p ∷ []
dropped (pop p rest q) = []
dropped (leave r q) = []
dropped (begin p) = []
dropped (gather p needed stock n w) = []
dropped (announce p) = []
dropped (finish p) = []
dropped release = []

module _ (send_error : Packet → Option (List ℕ)) where
  pub data Step (s : KitchenWorker) : List Packet → List PizzaRecipe → KitchenWorker → Type 0 where
    receives :
        (now : ℕ) (packet : Packet) (t : KitchenWorker)
        → receive_one send_error now (some packet) s ≡ returned t
        → Step s (packet ∷ []) [] t
    checks :
        (now : ℕ) (t : KitchenWorker) (goes_on : Bool)
        → check_idle send_error now s ≡ (t, goes_on)
        → Step s [] [] t
    works :
        (i : ℕ) (w : Worker) (t : ThreadPool) (c : Cook) (to : Place)
        → get_elem? s.pool.workers i ≡ some w
        → (move : Move s.pool w.cook w.place t c to)
        → Step s [] (dropped move) (with_pool (put t i c to) s)
    ends : (t : KitchenWorker) → send send_error shutdown_packet s ≡ returned t → Step s [] [] t
    stops : Step s [] [] (with_pool (stop s.pool) s)
    regenerates :
        (stock : IngredientStock)
        → regen s.pool.stock ≡ some stock
        → Step s [] [] (with_pool (record s.pool { stock = stock }) s)

  pub data Run (s : KitchenWorker) : List Packet → List PizzaRecipe → KitchenWorker → Type 0 where
    begun : Run s [] [] s
    then_step :
        {taken more : List Packet} {lost fewer : List PizzaRecipe} {t u : KitchenWorker}
        → Run s taken lost t
        → Step t more fewer u
        → Run s (taken ++ more) (lost ++ fewer) u
