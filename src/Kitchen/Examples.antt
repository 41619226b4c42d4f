-- ===== src/Kitchen/Examples.antt =====
-- The theorems of the kitchen at concrete states: a new stock, and a pool of one cook.
use plazza.Prelude.{◌+◌, ◌≤◌, ◌<◌, ◌-◌, ◌^◌, ◌≡◌, refl, true, false, [], ◌∷◌, arith, length, total}
use plazza.Pizza.Factory.{margarita_recipe}
use plazza.Kitchen.Ingredient.{Ingredient, find}
use plazza.Kitchen.Cook.{new_cook, begin_cooking, done_packet}
use plazza.Kitchen.IngredientStock.{IngredientStock, consumed, wait_and_consume}
use plazza.Kitchen.StockLaws.{quantity, count, wait_and_consume-takes, wait_and_consume-wraps}
use plazza.Kitchen.ThreadPool.{
  start, looping, holding, baking, announced, Worker, ThreadPool, is_full, add_pizza,
}
use plazza.Kitchen.ThreadPool.Steps.{work, add, pop, announce, here, next, Step, put}
use plazza.Kitchen.ThreadPool.Capacity.{IsValid, Reach-IsValid}
use plazza.Kitchen.ThreadPool.Draining.{Run, begun, moved, work_left, Run-work_left}
use plazza.Kitchen.ThreadPool.Refusal.{unannounced, add_pizza-late}

-- Dough is nearly used up, and there is no tomato.
abbrev low : IngredientStock
low = record { stock = (0, 1) ∷ (1, 0) ∷ []; running = true }

low_fits : (i : Ingredient) → quantity i low.stock < 2 ^ 64
unfolding find
low_fits i = ground arith

dough_once : (i : Ingredient) → count i (0 ∷ []) ≤ 1
dough_once i = ground arith

low-consumed :
    wait_and_consume (0 ∷ []) low
    ≡ consumed (record { stock = (0, 0) ∷ (1, 0) ∷ []; running = true })
unfolding wait_and_consume
low-consumed = refl

wait_and_consume-takes_example :
    (low.running ≡ true)
    × ((i : Ingredient)
        → quantity i ((0, 0) ∷ (1, 0) ∷ []) + count i (0 ∷ []) ≡ quantity i low.stock)
wait_and_consume-takes_example =
    wait_and_consume-takes (0 ∷ []) low dough_once low_fits low-consumed

wait_and_consume-wraps_example :
    (s' : IngredientStock) × (wait_and_consume (0 ∷ 0 ∷ []) low ≡ consumed s')
    × (quantity 0 s'.stock ≡ 2 ^ 64 - 1)
unfolding find
wait_and_consume-wraps_example = wait_and_consume-wraps 0 low refl refl

abbrev pool_0 : ThreadPool
pool_0 = start 1 low

abbrev pool_1 : ThreadPool
pool_1 = (add_pizza margarita_recipe pool_0).0

abbrev holding_one : ThreadPool
holding_one = put (record pool_1 { queue = [] }) 0 (new_cook 0) (holding margarita_recipe)

pool_1-pops : Step pool_1 holding_one
unfolding start is_full add_pizza
pool_1-pops = work 0 _ _ _ _ refl (pop margarita_recipe [] refl)

Reach-IsValid_example : IsValid holding_one
Reach-IsValid_example =
    Reach-IsValid 1 low (omega arith) (next (next here (add margarita_recipe)) pool_1-pops)

abbrev one_move : Run pool_1 1 holding_one
unfolding start is_full add_pizza
one_move =
    moved 0 (record { cook = new_cook 0; place = looping }) _ _ _ begun refl
      (pop margarita_recipe [] refl)

Run-work_left_example : 1 + work_left holding_one ≤ work_left pool_1
Run-work_left_example = Run-work_left one_move

-- The cook has a pizza in the oven, and another waits, for a kitchen of capacity 2.
abbrev busy_worker : Worker
busy_worker = record {
  cook = begin_cooking margarita_recipe (new_cook 0);
  place = baking margarita_recipe;
}

abbrev full_pool : ThreadPool
full_pool = record {
  max_capacity = 2;
  workers = busy_worker ∷ [];
  queue = margarita_recipe ∷ [];
  running = true;
  load = 2;
  stock = low;
  results = [];
}

full_pool-IsValid : IsValid full_pool
unfolding begin_cooking
full_pool-IsValid = record {
  counted = refl;
  bounded = omega arith;
  fits = omega arith;
  shown = (refl, tt);
}

-- It has sent the Done packet.
abbrev late_pool : ThreadPool
late_pool =
    put (record full_pool { results = done_packet margarita_recipe ∷ [] }) 0 busy_worker.cook
      (announced margarita_recipe)

add_pizza-late_example :
    (add_pizza margarita_recipe late_pool ≡ (late_pool, false))
    × (length late_pool.queue + total unannounced late_pool.workers < late_pool.max_capacity)
add_pizza-late_example =
    add_pizza-late margarita_recipe margarita_recipe full_pool _ 0 busy_worker busy_worker.cook
      (announced margarita_recipe) full_pool-IsValid refl refl refl (announce margarita_recipe) refl
