-- ===== src/Kitchen/KitchenWorker.antt =====
-- kitchen/KitchenWorker.cpp: the main loop of a kitchen. The queue of results is the one that the
-- cooks of the pool write to; `send_error` is what its `send` throws for a packet. Times are
-- milliseconds of the steady clock. What a status answer reads of the pool and of the stock is
-- read at one moment.
pub mod Answers
pub mod Rounds
pub mod Steps
pub mod Weights
pub mod Sending
pub mod Receiving
pub mod Conservation
pub mod Lifetime
pub mod Examples
use plazza.Prelude.{
  ℕ, ◌+◌, ◌-◌, ◌^◌, ◌%◌, Bool, true, false, not, ◌&&◌, List, [], ◌∷◌, ◌++◌, Option, none, some,
  codes, map, length, leb, ◌==◌, if◌then◌else◌,
}
use plazza.Errors.{Result, ok, thrown, ◌>>=◌}
use plazza.Pizza.Recipe.{PizzaRecipe}
use plazza.Pizza.Factory.{Registry, create}
use plazza.Ipc.{Packet, PackedPizza, zero_packet, unpack}
use plazza.Ipc.MessageType
use plazza.Kitchen.Ingredient.{Ingredient, Stock, find, k_all_ingredients}
use plazza.Kitchen.Cook.{CookStatus}
use plazza.Kitchen.ThreadPool.{ThreadPool, add_pizza, get_status, stop}
use plazza.Reception.{Outcome, returned, threw}

pub record KitchenWorker : Type 0 where
  pub pool : ThreadPool
  pub registry : Registry
  pub last_active_time : ℕ

abbrev pub k_idle_timeout : ℕ
k_idle_timeout = 5000

abbrev pub push_result : Packet → KitchenWorker → KitchenWorker
push_result packet worker = record worker {
  pool = record worker.pool { results = worker.pool.results ++ (packet ∷ []) };
}

abbrev pub full_packet : PackedPizza → Packet
full_packet pizza = record zero_packet { type = MessageType.full; pizza = pizza }

abbrev pub shutdown_packet : Packet
shutdown_packet = record zero_packet { type = MessageType.shutdown }

-- `currentStock.at(value)` for the entries, in their order; `at` throws where there is none.
abbrev pub quantity_at : Option ℕ → Result ℕ
quantity_at none = thrown (codes "map::at")
quantity_at (some n) = ok (n % 2 ^ 32)

unfoldable pub quantities : List (List ℕ × Ingredient) → Stock → Result (List ℕ)
unfolding find
quantities [] stock = ok []
quantities ((name, i) ∷ entries) stock = do
  n ← quantity_at (find i stock)
  ns ← quantities entries stock
  ok (n ∷ ns)

unfoldable pub cook_packet : CookStatus → Packet
cook_packet status = record zero_packet {
  type = MessageType.cook_status;
  cook = record {
    id = status.id % 256;
    state = status.state % 256;
    pizza_type = status.type % 256;
    pizza_size = status.size % 256;
  };
}

unfoldable pub reply_packet : List ℕ → ThreadPool → Packet
unfolding get_status
reply_packet stock pool = record zero_packet {
  type = MessageType.status_reply;
  load = pool.load % 256;
  capacity = pool.max_capacity % 256;
  n_cooks = length (get_status pool) % 256;
  stock = stock;
}

-- The packets of a status answer, oldest first.
unfoldable pub answer : List ℕ → ThreadPool → List Packet
unfolding cook_packet reply_packet
answer stock pool = map cook_packet (get_status pool) ++ (reply_packet stock pool ∷ [])

-- A round of the loop: what `receive` gives, when, what the threads do to the pool before the
-- check, and when the check is made.
pub record Round : Type 0 where
  pub received : Option Packet
  pub received_at : ℕ
  pub threads : ThreadPool → ThreadPool
  pub checked_at : ℕ

module _ (send_error : Packet → Option (List ℕ)) where
  unfoldable pub send : Packet → KitchenWorker → Outcome KitchenWorker
  send packet worker = elim (send_error packet) [
    | some e ↦ threw e worker
    | none ↦ returned (push_result packet worker)
  ]

  abbrev pub and_then :
      Outcome KitchenWorker → (KitchenWorker → Outcome KitchenWorker) → Outcome KitchenWorker
  and_then (returned worker) f = f worker
  and_then (threw e worker) f = threw e worker

  unfoldable pub send_all : List Packet → KitchenWorker → Outcome KitchenWorker
  unfolding send
  send_all [] worker = returned worker
  send_all (packet ∷ packets) worker = and_then (send packet worker) (send_all packets)

  abbrev pub send_answer : Result (List ℕ) → KitchenWorker → Outcome KitchenWorker
  send_answer (thrown e) worker = threw e worker
  send_answer (ok stock) worker = send_all (answer stock worker.pool) worker

  unfoldable pub send_status_response : KitchenWorker → Outcome KitchenWorker
  unfolding quantities answer send_all
  send_status_response worker =
      send_answer (quantities k_all_ingredients worker.pool.stock.stock) worker

  -- The end of the handling of a pizza: `addPizza` has answered.
  abbrev pub after_add : ℕ → PackedPizza → KitchenWorker → ThreadPool × Bool → Outcome KitchenWorker
  after_add now pizza worker (pool, true) =
      returned (record worker { pool = pool; last_active_time = now })
  after_add now pizza worker (pool, false) =
      send (full_packet pizza) (record worker { pool = pool })

  abbrev pub offer : ℕ → PackedPizza → Result PizzaRecipe → KitchenWorker → Outcome KitchenWorker
  offer now pizza (thrown e) worker = threw e worker
  offer now pizza (ok recipe) worker = after_add now pizza worker (add_pizza recipe worker.pool)

  unfoldable pub handle_packet : ℕ → Packet → KitchenWorker → Outcome KitchenWorker
  unfolding send_status_response add_pizza create unpack
  handle_packet now packet worker =
      if packet.type == MessageType.pizza
      then (let pizza = unpack packet.pizza in
          let made = create pizza.type pizza.size worker.registry in
          offer now packet.pizza made.1 (record worker { registry = made.0 }))
      else if packet.type == MessageType.status_request
      then send_status_response worker
      else returned worker

  -- The check behind the packet: the worker, and whether the loop goes on.
  unfoldable pub check_idle : ℕ → KitchenWorker → KitchenWorker × Bool
  check_idle now worker =
      if worker.pool.load == 0
      then (worker, not (leb k_idle_timeout (now - worker.last_active_time)))
      else (record worker { last_active_time = now }, true)

  abbrev pub is_shutdown : Option Packet → Bool
  is_shutdown none = false
  is_shutdown (some packet) = packet.type == MessageType.shutdown

  -- The first part of a round of the loop.
  unfoldable pub receive_one : ℕ → Option Packet → KitchenWorker → Outcome KitchenWorker
  unfolding handle_packet
  receive_one now none worker = returned worker
  receive_one now (some packet) worker =
      if packet.type == MessageType.shutdown
      then returned worker
      else handle_packet now packet worker

  -- The loop; the flag tells whether it still goes on when the rounds are out.
  unfoldable pub loop : List Round → KitchenWorker → Outcome (KitchenWorker × Bool)
  unfolding receive_one check_idle
  loop [] worker = returned (worker, true)
  loop (round ∷ rounds) worker = elim (receive_one round.received_at round.received worker) [
    | threw e w ↦ threw e (w, false)
    | returned w ↦
        let (w', goes_on) =
          check_idle round.checked_at (record w { pool = round.threads w.pool }) in
        let rest = loop rounds w' in
        if goes_on && not (is_shutdown round.received) then rest else returned (w', false)
  ]

  -- What follows the loop: `stop`, the join of the threads, and the last packet.
  unfoldable pub finish : (ThreadPool → ThreadPool) → KitchenWorker → Outcome KitchenWorker
  unfolding send stop
  finish join worker = send shutdown_packet (record worker { pool = join (stop worker.pool) })
