-- ===== src/Reception/LoadBalancer/World.antt =====
-- What the callback for a pizza that is done keeps, every operation of the load balancer keeps.
use plazza.Prelude.{ℕ, List, [], ◌∷◌, some, ◌==◌, if_both, ◌≡◌, refl}
use plazza.Errors.{Result, ok, thrown}
use plazza.Ipc.{Packet}
use plazza.Ipc.MessageType
use plazza.Pizza.{Pizza, PizzaType, PizzaSize, PizzaOrder}
use plazza.Pizza.Recipe.{PizzaRecipe}
use plazza.Kitchen.Cook.{cooking}
use plazza.Reception.{
  KitchenHandle, Shared, Outcome, returned, threw, state_of, finish_done, finish_cook,
  handle_packet,
}
use plazza.Reception.LoadBalancer.{
  LoadBalancer, Os, drain, drain_alive, after_drain, cons_visited, visit, update_kitchens, dispatch,
  place_orders,
}
use plazza.Reception.LoadBalancer.Outcomes.{bind-keeps}
use plazza.Reception.LoadBalancer.Placing.{
  Placed, sent, opened, not_sent, not_started, not_sent_to_new, place_orders-keeps,
  place_pizza-Placed,
}

module _ {S : Type 0} (P : S → Type 0) (f : ℕ → PizzaType → PizzaSize → S → S)
    (keep : (id : ℕ) (type : PizzaType) (size : PizzaSize) (w : S)
      → P w
      → P (f id type size w)) where
  finish_done-Holds :
      (pizza : Pizza) (k : KitchenHandle) (s : Shared S) (r : Result PizzaRecipe)
      → P s.world
      → P (state_of (finish_done (some f) pizza k s r)).1.world
  unfolding finish_done
  finish_done-Holds pizza k s (thrown e) h = h
  finish_done-Holds pizza k s (ok recipe) h = keep k.id pizza.type pizza.size s.world h

  finish_cook-Holds :
      (k : KitchenHandle) (packet : Packet) (s : Shared S) (r : Result PizzaRecipe)
      → P s.world
      → P (state_of (finish_cook (some f) k packet s r)).1.world
  unfolding finish_cook
  finish_cook-Holds k packet s (thrown e) h = h
  finish_cook-Holds k packet s (ok recipe) h = h

  handle_packet-Holds :
      (k : KitchenHandle) (packet : Packet) (s : Shared S)
      → P s.world
      → P (state_of (handle_packet (some f) k packet s)).1.world
  unfolding handle_packet
  handle_packet-Holds k packet s h =
      let at : Outcome (KitchenHandle × Shared S) → Type 0 = λ m. P (state_of m).1.world in
      if_both at (packet.type == MessageType.done) _ _ (finish_done-Holds _ _ _ _ h) (
        if_both at (packet.type == MessageType.cook_status) _ _
          (if_both at (packet.cook.state == cooking) _ _ (finish_cook-Holds _ packet _ _ h) h)
          (if_both at (packet.type == MessageType.status_reply) _ _ h (
            if_both at (packet.type == MessageType.shutdown) _ _ h
              (if_both at (packet.type == MessageType.full) _ _ h h))))

  pub drain-Holds :
      (packets : List Packet) (k : KitchenHandle) (s : Shared S)
      → P s.world
      → P (state_of (drain (some f) packets k s)).1.world
  unfolding drain
  drain-Holds [] k s h = h
  drain-Holds (packet ∷ packets) k s h =
      bind-keeps (λ a. P a.1.world)
        (handle_packet (some f) (record k { result_queue = packets }) packet s)
        (λ (j, t). drain (some f) packets j t)
        (handle_packet-Holds (record k { result_queue = packets }) packet s h)
        (λ a i. drain-Holds packets a.0 a.1 i)

  drain_alive-Holds :
      (k : KitchenHandle) (s : Shared S)
      → P s.world
      → P (state_of (drain_alive (some f) k s)).1.world
  unfolding drain_alive
  drain_alive-Holds k s h =
      if_both (λ m. P (state_of {A = KitchenHandle × Shared S} m).1.world) k.alive
        (drain (some f) k.result_queue k s) (returned (k, s)) (drain-Holds k.result_queue k s h) h

  cons_visited-Holds :
      (k : KitchenHandle) (m : Outcome (List KitchenHandle × Shared S))
      → P (state_of m).1.world
      → P (state_of (cons_visited (some f) k m)).1.world
  unfolding cons_visited
  cons_visited-Holds k (returned a) h = h
  cons_visited-Holds k (threw e a) h = h

  after_drain-Holds :
      (ks : List KitchenHandle) (rest : Shared S → Outcome (List KitchenHandle × Shared S))
      (m : Outcome (KitchenHandle × Shared S))
      → P (state_of m).1.world
      → ((s : Shared S) → P s.world → P (state_of (rest s)).1.world)
      → P (state_of (after_drain (some f) ks rest m)).1.world
  unfolding after_drain
  after_drain-Holds ks rest (returned a) h r = cons_visited-Holds a.0 (rest a.1) (r a.1 h)
  after_drain-Holds ks rest (threw e a) h r = h

  visit-Holds :
      (ks : List KitchenHandle) (s : Shared S)
      → P s.world
      → P (state_of (visit (some f) ks s)).1.world
  unfolding visit
  visit-Holds [] s h = h
  visit-Holds (k ∷ ks) s h =
      after_drain-Holds ks (visit (some f) ks) (drain_alive (some f) k s) (drain_alive-Holds k s h)
        (visit-Holds ks)

  finish-world :
      (lb : LoadBalancer S) (m : Outcome (List KitchenHandle × Shared S))
      → visit (some f) lb.kitchens lb.shared ≡ m
      → P (state_of m).1.world
      → P (state_of (update_kitchens (some f) lb)).shared.world
  unfolding update_kitchens
  finish-world lb (returned a) e h = rw (e, update_kitchens) h
  finish-world lb (threw x a) e h = rw (e, update_kitchens) h

  pub update_kitchens-world :
      (lb : LoadBalancer S)
      → P lb.shared.world
      → P (state_of (update_kitchens (some f) lb)).shared.world
  update_kitchens-world lb h =
      finish-world lb (visit (some f) lb.kitchens lb.shared) refl
        (visit-Holds lb.kitchens lb.shared h)

  Placed-world :
      {os : Os} {order : PizzaOrder} {lb : LoadBalancer S} {o : Outcome (LoadBalancer S)}
      → Placed os order lb o
      → P lb.shared.world
      → P (state_of o).shared.world
  Placed-world (sent i load least accepted) h = h
  Placed-world (opened full started accepted) h = h
  Placed-world (not_sent e i load least bad) h = h
  Placed-world (not_started e full bad) h = h
  Placed-world (not_sent_to_new e full bad) h = h

  pub dispatch-world :
      (os : Os) (orders : List PizzaOrder) (lb : LoadBalancer S)
      → P lb.shared.world
      → P (state_of (dispatch (some f) os orders lb)).shared.world
  unfolding dispatch
  dispatch-world os orders lb h =
      bind-keeps (λ b. P b.shared.world) (update_kitchens (some f) lb) (place_orders os orders)
        (update_kitchens-world lb h)
        (λ b i.
          place_orders-keeps os (λ c. P c.shared.world)
            (λ order c. Placed-world (place_pizza-Placed os order c)) orders b i)
