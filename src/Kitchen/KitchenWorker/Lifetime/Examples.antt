-- ===== src/Kitchen/KitchenWorker/Lifetime/Examples.antt =====
-- A kitchen of one cook that receives a margarita and then the end.
use plazza.Prelude.{ℕ, ◌≡◌, refl, false, List, [], ◌∷◌, Option, none, some, arith}
use plazza.Errors.{ok}
use plazza.Pizza.{Pizza, margarita, m}
use plazza.Pizza.Factory.{fresh_registry, margarita_recipe, create}
use plazza.Ipc.{Packet, pack, unpack}
use plazza.Kitchen.Cook.{Cook, new_cook, begin_cooking, end_cooking, done_packet, to_ingredients}
use plazza.Kitchen.IngredientStock.{
  IngredientStock, consumed, wait_and_consume, new_stock, initial_stock, consume,
}
use plazza.Kitchen.ThreadPool.{
  Place, looping, holding, gathering, baking, announced, leaving, ended, ThreadPool, Worker, stop,
}
use plazza.Kitchen.ThreadPool.Steps.{pop, leave, begin, gather, announce, finish, release, put}
use plazza.Kitchen.KitchenWorker.{KitchenWorker, Round, shutdown_packet, loop}
use plazza.Kitchen.KitchenWorker.Steps.{new_worker}
use plazza.Kitchen.KitchenWorker.Lifetime.{
  Threads, still, moves, Looped, last_round, one_round, run,
}
use plazza.Kitchen.KitchenWorker.Lifetime.Answered.{IsEnded, IsAnswered, run-IsAnswered}
use plazza.Kitchen.Ingredient.{find}
use plazza.Kitchen.KitchenWorker.Lifetime.Ready.{IsStocked, IsReady}
use plazza.Kitchen.KitchenWorker.Lifetime.Joining.{IsJoinable, IsReady-IsJoinable}
use plazza.Reception.{returned}
use plazza.Reception.LoadBalancer.{pizza_packet}

abbrev by_size : Pizza → ℕ
by_size pizza = pizza.size

abbrev sends_all : Packet → Option (List ℕ)
sends_all packet = none

abbrev round_of : Packet → ℕ → Round
round_of packet at = record {
  received = some packet;
  received_at = at;
  threads = λ pool. pool;
  checked_at = at;
}

abbrev rounds : List Round
rounds =
    round_of (pizza_packet (record { type = margarita; size = m; quantity = 1 })) 150
    ∷ round_of shutdown_packet 200
    ∷ []

-- The kitchen when the loop has ended.
abbrev closing_worker : KitchenWorker
closing_worker = record (new_worker 1 100) {
  pool = record (new_worker 1 100).pool { queue = margarita_recipe ∷ []; load = 1 };
  registry = (create margarita m fresh_registry).0;
  last_active_time = 200;
}

-- The stock without what a margarita needs, and the cook behind it.
abbrev used : IngredientStock
used = record (new_stock initial_stock) {
  stock = consume (0 ∷ 1 ∷ 2 ∷ []) (new_stock initial_stock).stock;
}

needed-found : to_ingredients margarita_recipe.ingredients ≡ ok (0 ∷ 1 ∷ 2 ∷ [])
unfolding to_ingredients
needed-found = refl

used-consumed : wait_and_consume (0 ∷ 1 ∷ 2 ∷ []) (new_stock initial_stock) ≡ consumed used
unfolding wait_and_consume new_stock
used-consumed = refl

-- The cook takes the pizza, bakes it, and ends.
abbrev cook_0 : Cook
cook_0 = new_cook 0

abbrev busy_cook : Cook
busy_cook = begin_cooking margarita_recipe cook_0

abbrev at_place : Cook → Place → Worker
at_place cook place = record { cook = cook; place = place }

abbrev popped : ThreadPool
popped = put (record (stop closing_worker.pool) { queue = [] }) 0 cook_0 (holding margarita_recipe)

abbrev baked : ThreadPool
baked = put (record popped { stock = used }) 0 busy_cook (baking margarita_recipe)

abbrev sent : ThreadPool
sent =
    put (record baked { results = done_packet margarita_recipe ∷ [] }) 0 busy_cook
      (announced margarita_recipe)

abbrev joined : ThreadPool
joined = put (record sent { load = 0 }) 0 (end_cooking busy_cook) ended

to_baked : Threads (stop closing_worker.pool) [] baked
unfolding stop new_worker
to_baked =
    moves 0 (at_place busy_cook (gathering margarita_recipe)) _ _ _
      (moves 0 (at_place cook_0 (holding margarita_recipe)) _ _ _
        (moves 0 (at_place cook_0 looping) _ _ _ still refl (pop margarita_recipe [] refl)) refl
        (begin margarita_recipe))
      refl (gather margarita_recipe (0 ∷ 1 ∷ 2 ∷ []) used needed-found used-consumed)

to_joined : Threads (stop closing_worker.pool) [] joined
unfolding stop new_worker
to_joined =
    moves 0 (at_place (end_cooking busy_cook) looping) _ _ _
      (moves 0 (at_place (end_cooking busy_cook) leaving) _ _ _
        (moves 0 (at_place busy_cook (announced margarita_recipe)) sent _ _
          (moves 0 (at_place busy_cook (baking margarita_recipe)) _ _ _ to_baked refl
            (announce margarita_recipe))
          refl (finish margarita_recipe))
        refl release)
      refl (leave refl refl)

joined-ended : IsEnded (at_place (end_cooking busy_cook) ended)
joined-ended = refl

-- The two packets that the loop has received.
abbrev both_packets : List Packet
both_packets =
    pizza_packet (record { type = margarita; size = m; quantity = 1 }) ∷ shutdown_packet ∷ []

looped : Looped sends_all rounds (new_worker 1 100) both_packets [] closing_worker
unfolding loop new_worker create pack unpack
looped =
    one_round (round_of (pizza_packet (record { type = margarita; size = m; quantity = 1 })) 150)
      (round_of shutdown_packet 200 ∷ []) refl still refl refl
      (last_round (round_of shutdown_packet 200) [] refl still refl refl)

run-IsAnswered_example :
    (done : KitchenWorker) × (run sends_all rounds (λ pool. joined) 1 100 ≡ returned (done, false))
    × IsAnswered by_size both_packets [] done
unfolding stop new_worker
run-IsAnswered_example =
    run-IsAnswered by_size sends_all rounds 1 100 (λ pool. joined) closing_worker both_packets [] []
      looped to_joined (refl, tt) (omega arith) refl

-- What is left to the threads of that kitchen.
margarita-IsStocked : IsStocked (new_stock initial_stock).stock margarita_recipe
unfolding new_stock find
margarita-IsStocked = record {
  needed = 0 ∷ 1 ∷ 2 ∷ [];
  known = needed-found;
  once = λ i. ground arith;
  has = ((5, refl), ((5, refl), ((5, refl), tt)));
}

closing-IsReady : IsReady (stop closing_worker.pool)
unfolding stop new_worker new_stock find
closing-IsReady = record {
  stopped = refl;
  stock_runs = refl;
  fits = λ i. ground arith;
  queued = (margarita-IsStocked, tt);
  threads = (tt, tt);
}

IsReady-IsJoinable_example : IsJoinable (stop closing_worker.pool)
IsReady-IsJoinable_example = IsReady-IsJoinable (stop closing_worker.pool) closing-IsReady
