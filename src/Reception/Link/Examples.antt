-- ===== src/Reception/Link/Examples.antt =====
-- The theorems on a kitchen and its handle, for a kitchen of one cook.
use plazza.Prelude.{ℕ, ◌≡◌, refl, false, List, [], ◌∷◌, Option, none, some, arith}
use plazza.Pizza.{Pizza, PizzaOrder, margarita, m}
use plazza.Pizza.Factory.{fresh_registry, margarita_recipe, create}
use plazza.Ipc.{Packet, pack}
use plazza.Kitchen.ThreadPool.{looping, holding}
use plazza.Kitchen.ThreadPool.Steps.{pop, put}
use plazza.Kitchen.Cook.{new_cook}
use plazza.Kitchen.KitchenWorker.{KitchenWorker, receive_one, check_idle}
use plazza.Kitchen.IngredientStock.{IngredientStock, new_stock, initial_stock, consume}
use plazza.Kitchen.ThreadPool.{ThreadPool, gathering, baking, announced}
use plazza.Kitchen.Cook.{Cook, begin_cooking, done_packet}
use plazza.Reception.{KitchenHandle}
use plazza.Kitchen.KitchenWorker.Steps.{new_worker, Step, receives, works, with_pool}
use plazza.Reception.{Shared, DoneCallback, returned}
use plazza.Reception.LoadBalancer.{has_room, accept_pizza, pizza_packet}
use plazza.Reception.Link.{Link, spawned, sends, takes, cooks, Reach, here, next}
use plazza.Reception.Link.Outstanding.{
  IsOutstanding, Reach-IsOutstanding, IsAbandoned, Reach-IsAbandoned,
}

abbrev one_margarita : PizzaOrder
one_margarita = record { type = margarita; size = m; quantity = 1 }

abbrev by_size : Pizza → ℕ
by_size pizza = pizza.size

abbrev sends_all : Packet → Option (List ℕ)
sends_all packet = none

abbrev no_cb : DoneCallback ℕ
no_cb = none

abbrev shared_0 : Shared ℕ
shared_0 = record { registry = fresh_registry; log = []; world = 0 }

abbrev linked : Link ℕ
linked = spawned 0 1 100 shared_0

-- The reception has sent a pizza.
abbrev ordered : Link ℕ
ordered = record linked { handle = accept_pizza (pizza_packet one_margarita) linked.handle }

ordered-reached : Reach no_cb sends_all linked ordered
unfolding has_room
ordered-reached = next here (sends one_margarita refl)

-- The kitchen has received it.
abbrev fetched : KitchenWorker
fetched = record (new_worker 1 100) {
  pool = record (new_worker 1 100).pool { queue = margarita_recipe ∷ []; load = 1 };
  registry = (create margarita m fresh_registry).0;
  last_active_time = 200;
}

fetched-received :
    receive_one sends_all 200 (some (pizza_packet one_margarita)) (new_worker 1 100)
    ≡ returned fetched
unfolding receive_one new_worker create pack
fetched-received = refl

-- Its cook has taken it from the queue.
abbrev popped : KitchenWorker
popped =
    with_pool (put (record fetched.pool { queue = [] }) 0 (new_cook 0) (holding margarita_recipe))
      fetched

popped-Step : Step sends_all fetched [] [] popped
unfolding new_worker
popped-Step =
    works 0 (record { cook = new_cook 0; place = looping }) _ _ _ refl
      (pop margarita_recipe [] refl)

abbrev at_work : Link ℕ
at_work = record ordered { worker = popped; taken = pizza_packet one_margarita ∷ [] }

at_work-reached : Reach no_cb sends_all linked at_work
at_work-reached =
    next
      (next ordered-reached (
        takes (pizza_packet one_margarita) [] fetched refl
          (receives 200 (pizza_packet one_margarita) fetched fetched-received)))
      (cooks [] popped popped-Step)

Reach-IsOutstanding_example : IsOutstanding by_size at_work
Reach-IsOutstanding_example =
    Reach-IsOutstanding by_size no_cb sends_all 0 1 100 shared_0 (omega arith) at_work-reached

closing : (check_idle sends_all 6000 ordered.worker).1 ≡ false
unfolding check_idle new_worker
closing = refl

-- The order comes after the last look into the queue.
Reach-IsAbandoned_example : IsAbandoned ordered
Reach-IsAbandoned_example =
    Reach-IsAbandoned no_cb sends_all 0 1 100 shared_0 (omega arith) 6000 ordered-reached closing

-- The cook has baked it and sent the packet.
abbrev used : IngredientStock
used = record (new_stock initial_stock) {
  stock = consume (0 ∷ 1 ∷ 2 ∷ []) (new_stock initial_stock).stock;
}

abbrev busy_cook : Cook
busy_cook = begin_cooking margarita_recipe (new_cook 0)

abbrev begun_pool : ThreadPool
begun_pool = put popped.pool 0 busy_cook (gathering margarita_recipe)

abbrev baking_pool : ThreadPool
baking_pool = put (record begun_pool { stock = used }) 0 busy_cook (baking margarita_recipe)

abbrev told_pool : ThreadPool
told_pool =
    put (record baking_pool { results = done_packet margarita_recipe ∷ [] }) 0 busy_cook
      (announced margarita_recipe)

abbrev in_pool : ThreadPool → Link ℕ
in_pool pool = record at_work { worker = with_pool pool popped }

abbrev settled : KitchenHandle
settled = record ordered.handle { load = 0 }
