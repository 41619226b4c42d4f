-- ===== src/Kitchen/ThreadPool/Destruction/Examples.antt =====
-- The destructor of a pool of one cook who waits for a pizza.
use plazza.Prelude.{◌≤◌, refl, false, [], ◌∷◌}
use plazza.Kitchen.Cook.{new_cook}
use plazza.Kitchen.IngredientStock.{new_stock, initial_stock}
use plazza.Kitchen.ThreadPool.{ThreadPool, looping, ended}
use plazza.Kitchen.ThreadPool.Steps.{leave, put}
use plazza.Kitchen.ThreadPool.Destruction.{
  cook_deque, thread_vector, pizza_queue, queue_mutex, condition_variable, destruction_order,
  Closing, Run, begun, destroys, joins, works,
}
use plazza.Kitchen.ThreadPool.Destruction.Faults.{Run-faults}

abbrev waiting : ThreadPool
waiting = record {
  max_capacity = 2;
  workers = record { cook = new_cook 0; place = looping } ∷ [];
  queue = [];
  running = false;
  load = 0;
  stock = new_stock initial_stock;
  results = [];
}

abbrev over : ThreadPool
over = put waiting 0 (new_cook 0) ended

-- The mutex has been destroyed.
abbrev unlockable : Closing
unlockable = record { pool = waiting; left = pizza_queue ∷ thread_vector ∷ cook_deque ∷ [] }

to_unlockable : Run (record { pool = waiting; left = destruction_order }) 0 unlockable
unfolding destruction_order
to_unlockable =
    destroys queue_mutex (pizza_queue ∷ thread_vector ∷ cook_deque ∷ [])
      (destroys condition_variable (queue_mutex ∷ pizza_queue ∷ thread_vector ∷ cook_deque ∷ [])
        begun refl (λ e. cc))
      refl (λ e. cc)

to_end : Run unlockable 1 (record { pool = over; left = [] })
to_end =
    destroys cook_deque []
      (joins (cook_deque ∷ [])
        (works 0 (record { cook = new_cook 0; place = looping }) waiting (new_cook 0) ended
          (destroys pizza_queue (thread_vector ∷ cook_deque ∷ []) begun refl (λ e. cc)) refl
          (leave refl refl))
        refl (refl, tt))
      refl (λ e. cc)

Run-faults_example : 1 ≤ 1
Run-faults_example =
    Run-faults waiting (thread_vector ∷ cook_deque ∷ []) to_unlockable refl to_end refl
