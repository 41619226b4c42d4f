-- ===== src/Main.antt =====
-- main.cpp: the callbacks that tie the shell to the load balancer, and the queue of the orders that
-- are not complete. `ready` lists the orders for which `Display::notifyOrderReady` was called.
pub mod Deliveries
pub mod Arguments
pub mod Pending
pub mod Session
pub mod Examples
use plazza.Prelude.{
  ℕ, suc, ◌+◌, ◌-◌, ◌^◌, ◌%◌, Bool, true, false, ◌&&◌, List, [], ◌∷◌, ◌++◌, Option, none, some, ltb,
  ◌==◌, if◌then◌else◌,
}
use plazza.Pizza.{PizzaType, PizzaSize, PizzaOrder}
use plazza.Reception.{Shared, Outcome, returned, threw, DoneCallback}
use plazza.Reception.LoadBalancer.{LoadBalancer, Os, dispatch, update_kitchens}
use plazza.Reception.LoadBalancer.Polling.{Answer, get_status}
use plazza.Ipc.{Packet}

pub record Orders : Type 0 where
  pub pending : List (ℕ × ℕ)  -- a number of an order, and how many of its pizzas are not done
  pub next_order_id : ℕ
  pub ready : List ℕ

-- The callback of `installDoneCallback`. A count in the queue is positive.
unfoldable pub count_down : ℕ → ℕ → List (ℕ × ℕ) → Orders → Orders
count_down id n rest orders =
    if n - 1 == 0
    then record orders { pending = rest; ready = orders.ready ++ (id ∷ []) }
    else record orders { pending = (id, n - 1) ∷ rest }

unfoldable pub front_done : List (ℕ × ℕ) → Orders → Orders
unfolding count_down
front_done [] orders = orders
front_done ((id, n) ∷ rest) orders = count_down id n rest orders

unfoldable pub on_done : ℕ → PizzaType → PizzaSize → Orders → Orders
unfolding front_done
on_done kitchen_id type size orders = front_done orders.pending orders

-- `total`, an int: its 32 bits, of which the highest is the sign.
unfoldable pub total_of : ℕ → List PizzaOrder → ℕ
total_of total [] = total
total_of total (order ∷ orders) = total_of ((total + order.quantity % 2 ^ 32) % 2 ^ 32) orders

abbrev pub is_positive_int : ℕ → Bool
is_positive_int n = ltb 0 n && ltb n (2 ^ 31)

-- `pendingOrders.emplace(++nextOrderId, total)`, if the total is positive.
unfoldable pub emplace : ℕ → Orders → Orders
emplace n orders =
    if is_positive_int n
    then record orders {
      pending = orders.pending ++ ((suc orders.next_order_id, n) ∷ []);
      next_order_id = suc orders.next_order_id;
    }
    else orders

abbrev pub update_world : (Orders → Orders) → LoadBalancer Orders → LoadBalancer Orders
update_world f lb = record lb { shared = record lb.shared { world = f lb.shared.world } }

-- The callback of `setOrderCallback`.
unfoldable pub on_order : Os → List PizzaOrder → LoadBalancer Orders → Outcome (LoadBalancer Orders)
unfolding total_of emplace dispatch on_done
on_order os orders lb =
    dispatch (some on_done) os orders (update_world (emplace (total_of 0 orders)) lb)

-- The callback of `setPollCallback`.
unfoldable pub on_poll : LoadBalancer Orders → Outcome (LoadBalancer Orders)
unfolding update_kitchens on_done
on_poll lb = update_kitchens (some on_done) lb

-- The callback of `setStatusCallback`, up to what it prints: `none` where the kitchens have not
-- all answered within the rounds.
unfoldable pub on_status :
    Os → ℕ → (ℕ → ℕ → List Packet) → LoadBalancer Orders → Option (Outcome (Answer Orders))
unfolding get_status on_done
on_status os fuel arrivals lb = get_status (some on_done) os fuel arrivals lb
