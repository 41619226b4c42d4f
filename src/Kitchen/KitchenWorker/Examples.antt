-- ===== src/Kitchen/KitchenWorker/Examples.antt =====
-- The theorems of the kitchen's main loop for a kitchen of two cooks, one of them at work.
use plazza.Prelude.{
  ℕ, ◌≡◌, ◌-◌, ◌<◌, true, inl, refl, List, [], ◌∷◌, Option, none, some, All, arith,
}
use plazza.Errors.{ok}
use plazza.Ipc.{Packet}
use plazza.Pizza.Factory.{fresh_registry, regina_recipe}
use plazza.Kitchen.Ingredient.{Stock, k_all_ingredients}
use plazza.Kitchen.IngredientStock.{new_stock, initial_stock}
use plazza.Kitchen.Cook.{new_cook, status, begin_cooking}
use plazza.Kitchen.ThreadPool.{ThreadPool, looping, gathering, get_status}
use plazza.Kitchen.KitchenWorker.{KitchenWorker, Round, loop, answer, quantities}
use plazza.Kitchen.KitchenWorker.Rounds.{IsQuiet, GoesOn, loop-GoesOn}
use plazza.Kitchen.KitchenWorker.Answers.{IsSendable, told, got, drain-answer}
use plazza.Reception.{KitchenHandle, KitchenStatus, Shared, DoneCallback, returned}
use plazza.Reception.LoadBalancer.{LoadBalancer, Os, new_handle, drain}
use plazza.Reception.LoadBalancer.Validity.{IsValid}
use plazza.Reception.LoadBalancer.Polling
use plazza.Reception.LoadBalancer.Polling.Telling.{TellsAll, get_status-tells}

abbrev two_cooks : ThreadPool
two_cooks = record {
  max_capacity = 4;
  workers =
      record { cook = begin_cooking regina_recipe (new_cook 0); place = gathering regina_recipe }
      ∷ record { cook = new_cook 1; place = looping }
      ∷ [];
  queue = [];
  running = true;
  load = 1;
  stock = record { stock = []; running = true };
  results = [];
}

abbrev no_cb : DoneCallback ℕ
no_cb = none

abbrev shared_0 : Shared ℕ
shared_0 = record { registry = fresh_registry; log = []; world = 0 }

busy_cook-IsSendable : IsSendable (status (begin_cooking regina_recipe (new_cook 0)))
unfolding status begin_cooking
busy_cook-IsSendable = record {
  id_fits = refl;
  state_fits = refl;
  type_fits = refl;
  size_fits = refl;
  idle_name = λ e. absurd (cc);
  cooking_name = λ e. refl;
  cooking_known = λ e. (regina_recipe, refl);
}

new_cook-IsSendable : IsSendable (status (new_cook 1))
unfolding status
new_cook-IsSendable = record {
  id_fits = refl;
  state_fits = refl;
  type_fits = refl;
  size_fits = refl;
  idle_name = λ e. refl;
  cooking_name = λ e. absurd (cc);
  cooking_known = λ e. absurd (cc);
}

drain-answer_example :
    (shared' : Shared ℕ) × (drain no_cb (answer (5 ∷ 4 ∷ []) two_cooks) (new_handle 0 2) shared_0
      ≡ got no_cb
          (told no_cb (5 ∷ 4 ∷ []) two_cooks (new_handle 0 2) (get_status two_cooks))
          shared')
unfolding get_status
drain-answer_example =
    drain-answer no_cb (5 ∷ 4 ∷ []) two_cooks (new_handle 0 2) shared_0 (inl refl)
      (busy_cook-IsSendable, (new_cook-IsSendable, tt)) refl

abbrev sends_all : Packet → Option (List ℕ)
sends_all p = none

abbrev idle_worker : KitchenWorker
idle_worker = record {
  pool = record two_cooks { load = 0; workers = [] };
  registry = fresh_registry;
  last_active_time = 100;
}

abbrev quiet_at : ℕ → Round
quiet_at t = record { received = none; received_at = t; threads = λ p. p; checked_at = t }

quiet_at-IsQuiet : (t : ℕ) → IsQuiet (quiet_at t)
quiet_at-IsQuiet t = record { nothing_received = refl; stays_idle = λ pool h. h }

loop-GoesOn_example :
    GoesOn
      ((4000 - 100 < 5000) × ((5100 - 100 < 5000) × Unit))
      (loop sends_all (quiet_at 4000 ∷ quiet_at 5100 ∷ []) idle_worker)
loop-GoesOn_example =
    loop-GoesOn sends_all (quiet_at 4000 ∷ quiet_at 5100 ∷ []) idle_worker
      (quiet_at-IsQuiet 4000, (quiet_at-IsQuiet 5100, tt)) refl

-- Two kitchens in the same state.
abbrev pool_of : ℕ → ThreadPool
pool_of id = two_cooks

abbrev stock_of : ℕ → List ℕ
stock_of id = 5 ∷ 5 ∷ 5 ∷ 5 ∷ 5 ∷ 5 ∷ 5 ∷ 5 ∷ 5 ∷ []

abbrev two_kitchens : LoadBalancer ℕ
two_kitchens = record {
  shared = shared_0;
  kitchens = new_handle 0 2 ∷ new_handle 1 2 ∷ [];
  next_kitchen_id = 2;
  n_cooks = 2;
}

abbrev both_answer : ℕ → ℕ → List Packet
both_answer round id = answer (stock_of id) (pool_of id)

abbrev quiet_os : Os
quiet_os = record { spawn_error = λ orders results. none; send_error = λ k p. none }

two_kitchens-IsValid : IsValid two_kitchens
two_kitchens-IsValid = record {
  bounded = ((omega arith, refl), ((omega arith, refl), tt));
  numbered = omega arith;
  some_room = omega arith;
}

pools-IsSendable : (id : ℕ) → All IsSendable (get_status (pool_of id))
unfolding get_status
pools-IsSendable id = (busy_cook-IsSendable, (new_cook-IsSendable, tt))

abbrev sends : (k : KitchenHandle) (p : Packet) → quiet_os.send_error k p ≡ none
sends k p = refl

abbrev kitchen_stock : ℕ → Stock
kitchen_stock id = (new_stock initial_stock).stock

new_stock-listed : (id : ℕ) → quantities k_all_ingredients (kitchen_stock id) ≡ ok (stock_of id)
unfolding quantities new_stock
new_stock-listed id = refl

get_status-tells_example :
    (lb' : LoadBalancer ℕ) × (told_of : List KitchenStatus) × (Polling.get_status no_cb quiet_os 1
        both_answer two_kitchens
      ≡ some (returned (lb', told_of)))
    × TellsAll no_cb quiet_os sends stock_of pool_of pools-IsSendable kitchen_stock
        two_kitchens.kitchens told_of
get_status-tells_example =
    get_status-tells no_cb quiet_os sends stock_of pool_of pools-IsSendable kitchen_stock
      new_stock-listed 0 both_answer two_kitchens refl two_kitchens-IsValid
      (
        record { is_alive = refl; nothing_left = refl },
        (record { is_alive = refl; nothing_left = refl }, tt),
      )
      (inl refl)
