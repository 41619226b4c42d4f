-- ===== src/Reception/LoadBalancer.antt =====
-- reception/loadBalancer/LoadBalancer.cpp: the operations of the class. What the kernel decides
-- (whether a kitchen can be started, whether a packet can be sent) is a parameter.
pub mod Outcomes
pub mod Kitchens
pub mod Scan
pub mod Placing
pub mod Receiving
pub mod Validity
pub mod Paths
pub mod Spawning
pub mod Accounting
pub mod Opening
pub mod World
pub mod Shutdown
pub mod Polling
use plazza.Prelude.{
  ℕ, zero, suc, ◌+◌, ◌*◌, ◌^◌, ◌%◌, Bool, true, false, ◌&&◌, List, [], ◌∷◌, ◌++◌, Option, none,
  some, length, ltb, codes, if◌then◌else◌,
}
use plazza.Text.{to_string}
use plazza.Pizza.{PizzaOrder}
use plazza.Ipc.{Packet, zero_packet, pack}
use plazza.Ipc.MessageType
use plazza.Reception.{KitchenHandle, Shared, Outcome, returned, threw, DoneCallback, handle_packet}

-- The exceptions that the constructors of MessageQueue and Process throw for the paths of a
-- kitchen's two queues, and those that `send` throws for a kitchen as it stands.
pub record Os : Type 0 where
  pub spawn_error : List ℕ → List ℕ → Option (List ℕ)
  pub send_error : KitchenHandle → Packet → Option (List ℕ)

pub record LoadBalancer (S : Type 0) : Type 0 where
  pub shared : Shared S
  pub kitchens : List KitchenHandle
  pub next_kitchen_id : ℕ
  pub n_cooks : ℕ

-- The constructor; the factory and the logger are in what the handlers share.
unfoldable pub new_load_balancer : {S : Type 0} → Shared S → ℕ → LoadBalancer S
new_load_balancer shared n_cooks = record {
  shared = shared;
  kitchens = [];
  next_kitchen_id = 0;
  n_cooks = n_cooks;
}

unfoldable pub order_path : ℕ → List ℕ
order_path kitchen_id = codes "order_queue_" ++ to_string kitchen_id

unfoldable pub result_path : ℕ → List ℕ
result_path kitchen_id = codes "result_queue_" ++ to_string kitchen_id

-- `2 * nCooks`, a std::size_t.
abbrev pub capacity_of : ℕ → ℕ
capacity_of n_cooks = (2 * n_cooks) % 2 ^ 64

-- The handle that `spawnKitchen` fills in.
abbrev pub new_handle : ℕ → ℕ → KitchenHandle
new_handle id n_cooks = record {
  id = id;
  order_queue = [];
  result_queue = [];
  waited = false;
  load = 0;
  capacity = capacity_of n_cooks;
  alive = true;
  status = record { id = id; load = 0; capacity = capacity_of n_cooks; cooks = []; stock = [] };
  pending_cooks = [];
}

-- The scan of `dispatch` for the kitchen with the smallest load among those alive and with room:
-- `best` is the index and the load of the best so far.
unfoldable pub has_room : KitchenHandle → Bool
has_room kitchen = kitchen.alive && ltb kitchen.load kitchen.capacity

unfoldable pub better : KitchenHandle → ℕ → Option (ℕ × ℕ) → Option (ℕ × ℕ)
better kitchen i none = some (i, kitchen.load)
better kitchen i (some (j, load)) =
    if ltb kitchen.load load then some (i, kitchen.load) else some (j, load)

unfoldable pub scan : List KitchenHandle → ℕ → Option (ℕ × ℕ) → Option (ℕ × ℕ)
unfolding better has_room
scan [] i best = best
scan (kitchen ∷ kitchens) i best =
    scan kitchens (suc i) (if has_room kitchen then better kitchen i best else best)

-- `kitchens[i]` through a pointer into the vector.
unfoldable pub update_at :
    ℕ → (KitchenHandle → KitchenHandle) → List KitchenHandle → List KitchenHandle
update_at i f [] = []
update_at zero f (kitchen ∷ kitchens) = f kitchen ∷ kitchens
update_at (suc i) f (kitchen ∷ kitchens) = kitchen ∷ update_at i f kitchens

unfoldable pub kitchen_at : ℕ → List KitchenHandle → Option KitchenHandle
kitchen_at i [] = none
kitchen_at zero (kitchen ∷ kitchens) = some kitchen
kitchen_at (suc i) (kitchen ∷ kitchens) = kitchen_at i kitchens

-- `erase(remove_if(... !alive))`.
unfoldable pub erase_dead : List KitchenHandle → List KitchenHandle
erase_dead [] = []
erase_dead (kitchen ∷ kitchens) =
    let rest = erase_dead kitchens in if kitchen.alive then kitchen ∷ rest else rest

abbrev pub pizza_packet : PizzaOrder → Packet
pizza_packet order = record zero_packet {
  type = MessageType.pizza;
  pizza = pack (record { type = order.type; size = order.size });
}

abbrev pub append_order : Packet → KitchenHandle → KitchenHandle
append_order packet kitchen = record kitchen { order_queue = kitchen.order_queue ++ (packet ∷ []) }

-- `send` and `++best->load`.
abbrev pub accept_pizza : Packet → KitchenHandle → KitchenHandle
accept_pizza packet kitchen = record (append_order packet kitchen) { load = kitchen.load + 1 }

infixl 5 ◌>>=◌
abbrev pub ◌>>=◌ {ℓ} : {A : Type ℓ} → Outcome A → (A → Outcome A) → Outcome A
returned a >>= f = f a
threw e a >>= f = threw e a

module _ {S : Type 0} (os : Os) where
  -- The number is used up even if the kitchen cannot be started.
  unfoldable pub spawn_kitchen : LoadBalancer S → Outcome (LoadBalancer S)
  spawn_kitchen lb =
      elim (os.spawn_error (order_path lb.next_kitchen_id) (result_path lb.next_kitchen_id)) [
        | some e ↦ threw e (record lb { next_kitchen_id = suc lb.next_kitchen_id })
        | none ↦ returned (record lb {
          kitchens = lb.kitchens ++ (new_handle lb.next_kitchen_id lb.n_cooks ∷ []);
          next_kitchen_id = suc lb.next_kitchen_id;
        })
      ]

  unfoldable pub send_pizza : PizzaOrder → ℕ → LoadBalancer S → Outcome (LoadBalancer S)
  unfolding kitchen_at update_at
  send_pizza order i lb = elim (kitchen_at i lb.kitchens) [
    | none ↦ returned lb
    | some kitchen ↦ elim (os.send_error kitchen (pizza_packet order)) [
      | some e ↦ threw e lb
      | none ↦
          returned
            (record lb { kitchens = update_at i (accept_pizza (pizza_packet order)) lb.kitchens })
    ]
  ]

  -- The body of the inner loop of `dispatch`: one pizza.
  unfoldable pub place_pizza : PizzaOrder → LoadBalancer S → Outcome (LoadBalancer S)
  unfolding scan spawn_kitchen send_pizza
  place_pizza order lb = elim (scan lb.kitchens 0 none) [
    | some (i, _) ↦ send_pizza order i lb
    | none ↦ spawn_kitchen lb >>= send_pizza order (length lb.kitchens)
  ]

  unfoldable pub place_pizzas : ℕ → PizzaOrder → LoadBalancer S → Outcome (LoadBalancer S)
  unfolding place_pizza
  place_pizzas zero order lb = returned lb
  place_pizzas (suc n) order lb = place_pizza order lb >>= place_pizzas n order

  unfoldable pub place_orders : List PizzaOrder → LoadBalancer S → Outcome (LoadBalancer S)
  unfolding place_pizzas
  place_orders [] lb = returned lb
  place_orders (order ∷ orders) lb = place_pizzas order.quantity order lb >>= place_orders orders

module _ {S : Type 0} (done_cb : DoneCallback S) where
  -- `while (receive(packet)) handlePacket(kitchen, packet)`: each packet leaves the queue before
  -- it is handled.
  unfoldable pub drain : List Packet → KitchenHandle → Shared S → Outcome (KitchenHandle × Shared S)
  unfolding handle_packet
  drain [] kitchen shared = returned (kitchen, shared)
  drain (packet ∷ packets) kitchen shared =
      handle_packet done_cb (record kitchen { result_queue = packets }) packet shared >>= λ (k, s).
      drain packets k s

  unfoldable pub cons_visited :
      KitchenHandle
      → Outcome (List KitchenHandle × Shared S)
      → Outcome (List KitchenHandle × Shared S)
  cons_visited k (threw e (ks, s)) = threw e (k ∷ ks, s)
  cons_visited k (returned (ks, s)) = returned (k ∷ ks, s)

  -- The loop goes on to the other kitchens unless an exception left the first.
  unfoldable pub after_drain :
      List KitchenHandle
      → (Shared S → Outcome (List KitchenHandle × Shared S))
      → Outcome (KitchenHandle × Shared S)
      → Outcome (List KitchenHandle × Shared S)
  unfolding cons_visited
  after_drain others rest (threw e (k, s)) = threw e (k ∷ others, s)
  after_drain others rest (returned (k, s)) = cons_visited k (rest s)

  unfoldable pub drain_alive : KitchenHandle → Shared S → Outcome (KitchenHandle × Shared S)
  unfolding drain
  drain_alive kitchen shared =
      if kitchen.alive
      then drain kitchen.result_queue kitchen shared
      else returned (kitchen, shared)

  -- The first loop of `updateKitchens`.
  unfoldable pub visit : List KitchenHandle → Shared S → Outcome (List KitchenHandle × Shared S)
  unfolding drain_alive after_drain
  visit [] shared = returned ([], shared)
  visit (kitchen ∷ kitchens) shared =
      after_drain kitchens (visit kitchens) (drain_alive kitchen shared)

  unfoldable pub update_kitchens : LoadBalancer S → Outcome (LoadBalancer S)
  unfolding visit erase_dead
  update_kitchens lb = elim (visit lb.kitchens lb.shared) [
    | threw e (ks, s) ↦ threw e (record lb { kitchens = ks; shared = s })
    | returned (ks, s) ↦ returned (record lb { kitchens = erase_dead ks; shared = s })
  ]

  unfoldable pub dispatch : Os → List PizzaOrder → LoadBalancer S → Outcome (LoadBalancer S)
  unfolding update_kitchens place_orders
  dispatch os orders lb = update_kitchens lb >>= place_orders os orders
