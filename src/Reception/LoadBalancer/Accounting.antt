-- ===== src/Reception/LoadBalancer/Accounting.antt =====
-- `dispatch` counted: each pizza ordered is sent once and counted once, and no more kitchens are
-- started than needed.
use plazza.Prelude.{
  ℕ, zero, suc, ◌+◌, ◌-◌, ◌*◌, ◌≡◌, refl, ap, ltb, if◌then◌else◌, List, [], ◌∷◌, ◌++◌, none, arith,
}
use plazza.Ipc.{ℤ, pos, negsuc, Packet, pack}
use plazza.Pizza.{PizzaOrder}
use plazza.Reception.{KitchenHandle, DoneCallback, Outcome, returned}
use plazza.Reception.LoadBalancer.{
  LoadBalancer, Os, new_handle, accept_pizza, pizza_packet, place_pizza, place_pizzas, place_orders,
  update_kitchens, dispatch, ◌>>=◌,
}
use plazza.Reception.LoadBalancer.Outcomes.{Returns, bind-Returns, Returns-mono}
use plazza.Reception.LoadBalancer.Kitchens.{total, total-append, total-update_at}
use plazza.Reception.LoadBalancer.Placing.{
  Placed, sent, opened, not_sent, not_started, not_sent_to_new, place_pizza-Placed,
}

-- The weight of what has been sent to a kitchen, for any weight of packets: weight 1 on the packets
-- of one pizza and 0 on the others counts those.
abbrev pub weigh : (Packet → ℕ) → List Packet → ℕ
weigh v [] = 0
weigh v (p ∷ ps) = v p + weigh v ps

weigh-last :
    (v : Packet → ℕ) (ps : List Packet) (p : Packet) → weigh v (ps ++ (p ∷ [])) ≡ weigh v ps + v p
weigh-last v [] p = omega arith
weigh-last v (q ∷ ps) p = omega (arith, weigh-last v ps p)

abbrev pub sent_weight : (Packet → ℕ) → List KitchenHandle → ℕ
sent_weight v = total (λ k. weigh v k.order_queue)

abbrev pub total_load : List KitchenHandle → ℕ
total_load = total (λ k. k.load)

-- The packet that a pizza of an order is on the wire: the type and the size, each as a signed char.
abbrev pub signed : ℕ → ℤ
signed b = if ltb b 128 then pos b else negsuc (255 - b)

abbrev pub wire_packet : PizzaOrder → Packet
wire_packet order = record {
  type = 1;
  kitchen_id = 0;
  pizza = record { byte_0 = signed order.type; byte_1 = signed order.size };
  load = 0;
  capacity = 0;
  n_cooks = 0;
  stock = 0 ∷ 0 ∷ 0 ∷ 0 ∷ 0 ∷ 0 ∷ 0 ∷ 0 ∷ 0 ∷ [];
  cook = record { id = 0; state = 0; pizza_type = 0; pizza_size = 0 };
}

pizza_packet-wire_packet : (order : PizzaOrder) → pizza_packet order ≡ wire_packet order
unfolding pack
pizza_packet-wire_packet order = refl

-- The same sums over the orders.
abbrev pub ordered : List PizzaOrder → ℕ
ordered [] = 0
ordered (o ∷ os) = o.quantity + ordered os

abbrev pub ordered_weight : (Packet → ℕ) → List PizzaOrder → ℕ
ordered_weight v [] = 0
ordered_weight v (o ∷ os) = o.quantity * v (wire_packet o) + ordered_weight v os

-- `lb'` has `n` pizzas more than `lb`, and packets of weight `w` more.
pub record Grows {S : Type 0} (v : Packet → ℕ) (n w : ℕ) (lb lb' : LoadBalancer S) : Type 0 where
  pub loads : total_load lb'.kitchens ≡ total_load lb.kitchens + n
  pub weights : sent_weight v lb'.kitchens ≡ sent_weight v lb.kitchens + w

-- The kernel refuses nothing.
pub record IsFine (os : Os) : Type 0 where
  pub spawns : (orders results : List ℕ) → os.spawn_error orders results ≡ none
  pub sends : (k : KitchenHandle) (p : Packet) → os.send_error k p ≡ none

module _ {S : Type 0} (v : Packet → ℕ) (os : Os) (fine : IsFine os) where
  Placed-Grows :
      {order : PizzaOrder} {lb : LoadBalancer S} {o : Outcome (LoadBalancer S)}
      → Placed os order lb o
      → Returns (Grows v 1 (v (pizza_packet order)) lb) o
  Placed-Grows {order} {lb} (sent i load least accepted) = record {
    loads = total-update_at (λ k. k.load) _ 1 i lb.kitchens least.stands refl;
    weights =
        total-update_at (λ k. weigh v k.order_queue) _ _ i lb.kitchens least.stands
          (weigh-last v least.kitchen.order_queue (pizza_packet order));
  }
  Placed-Grows {order} {lb} (opened full started accepted) = record {
    loads = omega (
      arith,
      total-append (λ k. k.load) lb.kitchens
          (accept_pizza (pizza_packet order) (new_handle lb.next_kitchen_id lb.n_cooks) ∷ []),
    );
    weights = omega (
      arith,
      total-append (λ k. weigh v k.order_queue) lb.kitchens
          (accept_pizza (pizza_packet order) (new_handle lb.next_kitchen_id lb.n_cooks) ∷ []),
    );
  }
  Placed-Grows (not_sent e i load least bad) = absurd (cc (fine.sends least.kitchen _))
  Placed-Grows {lb} (not_started e full bad) = absurd (cc (fine.spawns _ _))
  Placed-Grows {lb} (not_sent_to_new e full bad) =
      absurd (cc (fine.sends (new_handle lb.next_kitchen_id lb.n_cooks) _))

  Grows-bind :
      (n m w u : ℕ) {n' w' : ℕ} (a : LoadBalancer S) (first : Outcome (LoadBalancer S))
      (f : LoadBalancer S → Outcome (LoadBalancer S))
      → n + m ≡ n'
      → w + u ≡ w'
      → Returns (Grows v n w a) first
      → ((b : LoadBalancer S) → Returns (Grows v m u b) (f b))
      → Returns (Grows v n' w' a) (first >>= f)
  Grows-bind n m w u {n'} {w'} a first f en ew g h =
      bind-Returns (Grows v n w a) (Grows v n' w' a) first f g (λ b gb.
        Returns-mono (Grows v m u b) (Grows v n' w' a) (f b)
          (λ c gc. omega (arith, gb.loads, gc.loads, gb.weights, gc.weights)) (h b))

  place_pizzas-Grows :
      (n : ℕ) (order : PizzaOrder) (lb : LoadBalancer S)
      → Returns (Grows v n (n * v (pizza_packet order)) lb) (place_pizzas os n order lb)
  unfolding place_pizzas
  place_pizzas-Grows zero order lb = omega arith
  place_pizzas-Grows (suc n) order lb =
      Grows-bind 1 n (v (pizza_packet order)) (n * v (pizza_packet order)) lb
        (place_pizza os order lb) (place_pizzas os n order) (omega arith) (omega arith)
        (Placed-Grows (place_pizza-Placed os order lb)) (place_pizzas-Grows n order)

  pub place_orders-Grows :
      (orders : List PizzaOrder) (lb : LoadBalancer S)
      → Returns (Grows v (ordered orders) (ordered_weight v orders) lb) (place_orders os orders lb)
  unfolding place_orders
  place_orders-Grows [] lb = omega arith
  place_orders-Grows (order ∷ orders) lb =
      Grows-bind order.quantity (ordered orders) (order.quantity * v (pizza_packet order))
        (ordered_weight v orders) lb (place_pizzas os order.quantity order lb)
        (place_orders os orders) refl
        (ap (λ p. order.quantity * v p + ordered_weight v orders) (pizza_packet-wire_packet order))
        (place_pizzas-Grows order.quantity order lb) (place_orders-Grows orders)

  -- Where the kernel refuses nothing and the packets at hand have been received, `dispatch`
  -- returns; the loads have grown by the number of pizzas ordered; and for any weight of packets
  -- the packets sent have grown by the weight of one packet for each pizza ordered, with the type
  -- and the size of the order as its two chars, so that each kind of pizza is sent exactly as often
  -- as it is ordered.
  pub dispatch-Grows :
      (done_cb : DoneCallback S) (orders : List PizzaOrder) (lb here : LoadBalancer S)
      → update_kitchens done_cb lb ≡ returned here
      → Returns
          (Grows v (ordered orders) (ordered_weight v orders) here)
          (dispatch done_cb os orders lb)
  unfolding dispatch
  dispatch-Grows done_cb orders lb here e = rw e (place_orders-Grows orders here)
