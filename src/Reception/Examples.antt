-- ===== src/Reception/Examples.antt =====
-- The theorems of the reception at a concrete state: two kitchens, of one cook each.
use plazza.Prelude.{ℕ, zero, suc, ◌≤◌, refl, List, [], ◌∷◌, none, some, arith}
use plazza.Ipc.{Packet, zero_packet, pack, unpack}
use plazza.Pizza.{PizzaOrder}
use plazza.Pizza.Factory.{fresh_registry, create}
use plazza.Reception.{KitchenHandle, Shared, state_of, DoneCallback}
use plazza.Reception.LoadBalancer.{
  LoadBalancer, Os, has_room, new_handle, place_pizza, place_orders, update_kitchens, dispatch,
}
use plazza.Reception.LoadBalancer.Outcomes.{Returns}
use plazza.Reception.LoadBalancer.Shutdown.{shutdown, AllOver, shutdown-AllOver}
use plazza.Kitchen.IngredientStock.{new_stock}
use plazza.Kitchen.KitchenWorker.{reply_packet}
use plazza.Kitchen.ThreadPool.{start}
use plazza.Reception.LoadBalancer.Polling.{get_status}
use plazza.Reception.LoadBalancer.Polling.Validity.{AtEnd}
use plazza.Reception.LoadBalancer.Polling.Keeping.{get_status-IsValid}
use plazza.Reception.LoadBalancer.Polling.Ending.{Ends, get_status-Ends}
use plazza.Reception.LoadBalancer.Placing.{Placed, place_pizza-Placed}
use plazza.Reception.LoadBalancer.Paths.{AllDiffer, paths_of, IsValid-AllDiffer}
use plazza.Reception.LoadBalancer.Validity.{IsValid, dispatch-IsValid}
use plazza.Reception.LoadBalancer.Accounting.{Grows, IsFine, dispatch-Grows}
use plazza.Reception.LoadBalancer.Opening.{with_room, place_orders-with_room}

abbrev quiet_os : Os
quiet_os = record { spawn_error = λ orders results. none; send_error = λ k p. none }

abbrev broken_os : Os
broken_os = record { spawn_error = λ orders results. some (6 ∷ []); send_error = λ k p. none }

quiet_os-IsFine : IsFine quiet_os
quiet_os-IsFine = record { spawns = λ orders results. refl; sends = λ k p. refl }

-- The callback counts the pizzas that are done.
abbrev counting : DoneCallback ℕ
counting = some (λ id type size n. suc n)

abbrev shared_0 : Shared ℕ
shared_0 = record { registry = fresh_registry; log = []; world = 0 }

abbrev done_packet : Packet
done_packet = record zero_packet { type = 2; pizza = pack (record { type = 1; size = 4 }) }

-- Kitchen 0 is full and has finished a pizza; kitchen 1 has one pizza.
abbrev kitchen_0 : KitchenHandle
kitchen_0 = record (new_handle 0 1) { load = 2; result_queue = done_packet ∷ [] }

abbrev kitchen_1 : KitchenHandle
kitchen_1 = record (new_handle 1 1) { load = 1 }

abbrev busy : LoadBalancer ℕ
busy = record {
  shared = shared_0;
  kitchens = kitchen_0 ∷ kitchen_1 ∷ [];
  next_kitchen_id = 2;
  n_cooks = 1;
}

abbrev two_orders : List PizzaOrder
two_orders =
    record { type = 1; size = 4; quantity = 3 } ∷ record { type = 8; size = 1; quantity = 2 } ∷ []

busy-IsValid : IsValid busy
busy-IsValid = omega arith

place_pizza-Placed_example :
    Placed broken_os
      (record { type = 1; size = 4; quantity = 3 })
      busy
      (place_pizza broken_os (record { type = 1; size = 4; quantity = 3 }) busy)
place_pizza-Placed_example =
    place_pizza-Placed broken_os (record { type = 1; size = 4; quantity = 3 }) busy

dispatch-IsValid_example : IsValid (state_of (dispatch counting broken_os two_orders busy))
dispatch-IsValid_example = dispatch-IsValid counting busy broken_os two_orders busy-IsValid

dispatch-Grows_example :
    Returns
      (Grows (λ p. p.type) 5 5 (state_of (update_kitchens counting busy)))
      (dispatch counting quiet_os two_orders busy)
unfolding update_kitchens create unpack pack
dispatch-Grows_example =
    dispatch-Grows (λ p. p.type) quiet_os quiet_os-IsFine counting two_orders busy _ refl

place_orders-with_room_example :
    with_room (state_of (place_orders quiet_os two_orders busy)).kitchens ≤ 1
unfolding has_room
place_orders-with_room_example = place_orders-with_room quiet_os two_orders busy 0 (omega arith)

shutdown-AllOver_example : Returns (λ b. AllOver busy.kitchens b.kitchens) (shutdown quiet_os busy)
shutdown-AllOver_example = shutdown-AllOver quiet_os (λ k p. refl) busy

-- Both kitchens answer, the second in the second round.
abbrev replies : ℕ → ℕ → List Packet
replies zero zero = reply_packet [] (start 1 (new_stock 5)) ∷ []
replies zero (suc id) = []
replies (suc round) id = reply_packet [] (start 1 (new_stock 5)) ∷ []

get_status-Ends_example : Ends (get_status counting quiet_os 2 replies busy)
unfolding reply_packet
get_status-Ends_example =
    get_status-Ends counting quiet_os 2 replies busy (omega arith)
      ((0, omega arith, refl), ((1, omega arith, refl), tt))

get_status-IsValid_example :
    AtEnd (λ answer. IsValid answer.0) (get_status counting broken_os 2 replies busy)
get_status-IsValid_example = get_status-IsValid counting broken_os 2 replies busy busy-IsValid

IsValid-AllDiffer_example : AllDiffer (paths_of busy.kitchens busy.next_kitchen_id)
IsValid-AllDiffer_example = IsValid-AllDiffer busy busy-IsValid
