-- ===== src/Kitchen/ThreadPool.antt =====
-- kitchen/threadPool/ThreadPool.cpp: the queue of a kitchen and the threads of its cooks. A thread
-- stands at a point of `workerLoop` and of `Cook::cookPizza`, and a step of the pool is one thread
-- that goes on to its next access to shared state, a call from the kitchen's main loop, or a round
-- of the regeneration thread of the stock.
pub mod Steps
pub mod Capacity
pub mod Draining
pub mod Refusal
pub mod Destruction
use plazza.Prelude.{
  ℕ, zero, suc, ◌+◌, ◌-◌, ◌*◌, ◌^◌, ◌%◌, Bool, true, false, not, List, [], ◌∷◌, ◌++◌, leb,
  if◌then◌else◌, map,
}
use plazza.Pizza.Recipe.{PizzaRecipe}
use plazza.Ipc.{Packet}
use plazza.Kitchen.Cook.{Cook, CookStatus, new_cook, status}
use plazza.Kitchen.IngredientStock.{IngredientStock}

-- Where a thread stands.
pub data Place : Type 0 where
  looping : Place  -- head of the `while` of `workerLoop`
  holding : PizzaRecipe → Place  -- has popped a pizza, before `cookPizza`
  gathering : PizzaRecipe → Place  -- in `waitAndConsumeIngredients`
  baking : PizzaRecipe → Place  -- asleep, before `send`
  announced : PizzaRecipe → Place  -- behind `send`, before the last lock of `cookPizza`
  leaving : Place  -- behind `cookPizza`, before `--_load`
  ended : Place  -- behind `break`
  aborted : Place  -- an exception has left the thread: std::terminate

pub record Worker : Type 0 where
  pub cook : Cook
  pub place : Place

-- A started pool, with the stock and the queue of results that `start` gives it.
pub record ThreadPool : Type 0 where
  pub max_capacity : ℕ
  pub workers : List Worker
  pub queue : List PizzaRecipe
  pub running : Bool
  pub load : ℕ
  pub stock : IngredientStock
  pub results : List Packet

-- A pool before `start`.
pub record NewPool : Type 0 where
  pub max_capacity : ℕ
  pub cooks : List Cook

unfoldable pub hire : ℕ → ℕ → List Cook
hire id zero = []
hire id (suc n) = new_cook id ∷ hire (suc id) n

unfoldable pub new_pool : ℕ → NewPool
unfolding hire
new_pool n_cooks = record { max_capacity = (2 * n_cooks) % 2 ^ 64; cooks = hire 0 n_cooks }

-- The loop of `start`: a thread for each cook.
unfoldable pub launch : List Cook → List Worker
launch [] = []
launch (cook ∷ cooks) = record { cook = cook; place = looping } ∷ launch cooks

unfoldable pub start_pool : IngredientStock → NewPool → ThreadPool
unfolding launch
start_pool stock pool = record {
  max_capacity = pool.max_capacity;
  workers = launch pool.cooks;
  queue = [];
  running = true;
  load = 0;
  stock = stock;
  results = [];
}

-- The pool of a kitchen once it runs.
unfoldable pub start : ℕ → IngredientStock → ThreadPool
unfolding new_pool start_pool
start n_cooks stock = start_pool stock (new_pool n_cooks)

unfoldable pub is_full : ThreadPool → Bool
is_full pool = leb pool.max_capacity pool.load

unfoldable pub add_pizza : PizzaRecipe → ThreadPool → ThreadPool × Bool
unfolding is_full
add_pizza pizza pool =
    if is_full pool
    then (pool, false)
    else (record pool { queue = pool.queue ++ (pizza ∷ []); load = (pool.load + 1) % 2 ^ 64 }, true)

unfoldable pub get_status : ThreadPool → List CookStatus
unfolding status
get_status pool = map (λ w. status w.cook) pool.workers

unfoldable pub stop : ThreadPool → ThreadPool
stop pool = record pool { running = false }
