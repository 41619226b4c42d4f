-- ===== src/Reception/LoadBalancer/Placing.antt =====
-- Every way in which the placing of one pizza can end.
use plazza.Prelude.{
  ℕ, zero, suc, ◌≡◌, refl, inl, inr, false, List, [], ◌∷◌, ◌++◌, Option, none, some, All, length,
  Option-cases,
}
use plazza.Pizza.{PizzaOrder}
use plazza.Reception.{KitchenHandle, Outcome, returned, threw, state_of}
use plazza.Reception.LoadBalancer.{
  order_path, result_path, LoadBalancer, Os, has_room, scan, update_at, new_handle, accept_pizza,
  pizza_packet, spawn_kitchen, send_pizza, place_pizza, place_pizzas, place_orders, ◌>>=◌,
}
use plazza.Reception.LoadBalancer.Outcomes.{bind-keeps}
use plazza.Reception.LoadBalancer.Kitchens.{kitchen_at-last, update_at-last}
use plazza.Reception.LoadBalancer.Scan.{IsLeast, Choice, scan-Choice}

-- All kitchens alive are at their capacity.
abbrev pub IsSaturated : List KitchenHandle → Type 0
IsSaturated ks = All (λ k. has_room k ≡ false) ks

-- How the placing of a pizza ends. `sent`: a least loaded kitchen with room has the packet at the
-- end of its queue and one more pizza to its load. `opened`: all were saturated, and a new kitchen
-- has the pizza; the kernel has refused neither. The others are the exceptions: the packet could not be sent, to a kitchen there
-- was or to the new one, or no kitchen could be started.
pub data Placed {S : Type 0} (os : Os) (order : PizzaOrder) (lb : LoadBalancer S)
    : Outcome (LoadBalancer S) → Type 0 where
  sent :
      (i load : ℕ) (least : IsLeast lb.kitchens i load)
      → os.send_error least.kitchen (pizza_packet order) ≡ none
      → Placed os order lb (
          returned
            (record lb { kitchens = update_at i (accept_pizza (pizza_packet order)) lb.kitchens }))
  opened :
      IsSaturated lb.kitchens
      → os.spawn_error (order_path lb.next_kitchen_id) (result_path lb.next_kitchen_id) ≡ none
      → os.send_error (new_handle lb.next_kitchen_id lb.n_cooks) (pizza_packet order) ≡ none
      → Placed os order lb (
          returned (record lb {
            kitchens =
                lb.kitchens
                ++ (accept_pizza (pizza_packet order) (new_handle lb.next_kitchen_id lb.n_cooks)
                    ∷ []);
            next_kitchen_id = suc lb.next_kitchen_id;
          }))
  not_sent :
      (e : List ℕ) (i load : ℕ) (least : IsLeast lb.kitchens i load)
      → os.send_error least.kitchen (pizza_packet order) ≡ some e
      → Placed os order lb (threw e lb)
  not_started :
      (e : List ℕ)
      → IsSaturated lb.kitchens
      → os.spawn_error (order_path lb.next_kitchen_id) (result_path lb.next_kitchen_id) ≡ some e
      → Placed os order lb (threw e (record lb { next_kitchen_id = suc lb.next_kitchen_id }))
  not_sent_to_new :
      (e : List ℕ)
      → IsSaturated lb.kitchens
      → os.send_error (new_handle lb.next_kitchen_id lb.n_cooks) (pizza_packet order) ≡ some e
      → Placed os order lb (
          threw e (record lb {
            kitchens = lb.kitchens ++ (new_handle lb.next_kitchen_id lb.n_cooks ∷ []);
            next_kitchen_id = suc lb.next_kitchen_id;
          }))

module _ {S : Type 0} (os : Os) (order : PizzaOrder) (lb : LoadBalancer S) where
  place_sent :
      (i load : ℕ) → IsLeast lb.kitchens i load → Placed os order lb (send_pizza os order i lb)
  unfolding send_pizza
  place_sent i load least = elim (Option-cases (os.send_error least.kitchen (pizza_packet order))) [
    | inl fine ↦ rw (least.stands, fine, send_pizza) (sent i load least fine)
    | inr (e, bad) ↦ rw (least.stands, bad, send_pizza) (not_sent e i load least bad)
  ]

  place_opened :
      IsSaturated lb.kitchens
      → Placed os order lb (spawn_kitchen os lb >>= send_pizza os order (length lb.kitchens))
  unfolding send_pizza spawn_kitchen
  place_opened full =
      elim (Option-cases
        (os.spawn_error (order_path lb.next_kitchen_id) (result_path lb.next_kitchen_id))) [
          | inr (e, bad) ↦ rw (bad, spawn_kitchen) (not_started e full bad)
          | inl started ↦
              rw
                (
                  started,
                  spawn_kitchen,
                  send_pizza,
                  kitchen_at-last lb.kitchens (new_handle lb.next_kitchen_id lb.n_cooks),
                )
                (elim (Option-cases
                  (os.send_error (new_handle lb.next_kitchen_id lb.n_cooks) (pizza_packet order))) [
                    | inl fine ↦
                        rw
                          (
                            fine,
                            update_at-last (accept_pizza (pizza_packet order)) lb.kitchens
                                (new_handle lb.next_kitchen_id lb.n_cooks),
                          )
                          (opened full started fine)
                    | inr (e, bad) ↦ rw bad (not_sent_to_new e full bad)
                  ])
        ]

  place_by_scan :
      (r : Option (ℕ × ℕ))
      → scan lb.kitchens 0 none ≡ r
      → Choice lb.kitchens r
      → Placed os order lb (place_pizza os order lb)
  unfolding place_pizza
  place_by_scan none e full = rw (e, place_pizza) (place_opened full)
  place_by_scan (some (i, load)) e least = rw (e, place_pizza) (place_sent i load least)

  -- One pizza of an order goes to a least loaded kitchen among those alive with room, where the
  -- kernel accepts its packet; a kitchen is started only where none of those alive has room, and
  -- gets the pizza where the kernel accepts that; and no other handle changes. Where the kernel
  -- refuses, the exception leaves the loads as they were.
  pub place_pizza-Placed : Placed os order lb (place_pizza os order lb)
  place_pizza-Placed = place_by_scan (scan lb.kitchens 0 none) refl (scan-Choice lb.kitchens)

-- What every placing keeps, the placing of a list of orders keeps.
module _ {κ} {S : Type 0} (os : Os) (P : LoadBalancer S → Type κ)
    (keep : (order : PizzaOrder) (lb : LoadBalancer S)
      → P lb
      → P (state_of (place_pizza os order lb))) where
  place_pizzas-keeps :
      (n : ℕ) (order : PizzaOrder) (lb : LoadBalancer S)
      → P lb
      → P (state_of (place_pizzas os n order lb))
  unfolding place_pizzas
  place_pizzas-keeps zero order lb h = h
  place_pizzas-keeps (suc n) order lb h =
      bind-keeps P (place_pizza os order lb) _ (keep order lb h) (place_pizzas-keeps n order)

  pub place_orders-keeps :
      (orders : List PizzaOrder) (lb : LoadBalancer S)
      → P lb
      → P (state_of (place_orders os orders lb))
  unfolding place_orders
  place_orders-keeps [] lb h = h
  place_orders-keeps (order ∷ orders) lb h =
      bind-keeps P (place_pizzas os order.quantity order lb) _
        (place_pizzas-keeps order.quantity order lb h) (place_orders-keeps orders)
