-- ===== src/Reception.antt =====
-- reception/kitchenHandle/KitchenHandle.hpp and reception/loadBalancer/LoadBalancer.cpp: what the
-- reception keeps of its kitchens, and how it handles a packet from one of them. `order_queue`
-- lists what has been sent to the kitchen, oldest first; `result_queue` what the next calls of
-- `receive` deliver before the queue is found empty. The field `pid`, which nothing reads or
-- sets, is left out; `waited` is `Process::done_`.
pub mod LoadBalancer
pub mod Link
pub mod Examples
use plazza.Prelude.{
  ℕ, ◌+◌, ◌-◌, ◌^◌, ◌%◌, Bool, true, false, List, [], ◌∷◌, ◌++◌, Option, none, some, ltb, ◌==◌,
  if◌then◌else◌,
}
use plazza.Errors.{Result, ok, thrown}
use plazza.Pizza.{PizzaType, PizzaSize, Pizza}
use plazza.Pizza.Recipe.{PizzaRecipe, get_name}
use plazza.Pizza.Factory.{Registry, create}
use plazza.Ipc.{Packet, unpack}
use plazza.Ipc.MessageType
use plazza.Kitchen.Cook.{CookStatus, cooking}
use plazza.Kitchen.Ingredient.{Stock, assign}

pub record KitchenStatus : Type 0 where
  pub id : ℕ
  pub load : ℕ
  pub capacity : ℕ
  pub cooks : List CookStatus
  pub stock : Stock

pub record KitchenHandle : Type 0 where
  pub id : ℕ
  pub order_queue : List Packet
  pub result_queue : List Packet
  pub waited : Bool
  pub load : ℕ
  pub capacity : ℕ
  pub alive : Bool
  pub status : KitchenStatus
  pub pending_cooks : List CookStatus

-- A line of plazza.log, without its time.
pub record LogEntry : Type 0 where
  pub kitchen_id : ℕ
  pub pizza_name : List ℕ

-- What the handlers share: the factory's registry, the log, and the state that the callback of
-- `setDoneCallback` works on.
pub record Shared (S : Type 0) : Type 0 where
  pub registry : Registry
  pub log : List LogEntry
  pub world : S

-- A call that returns or throws, with the state it leaves either way.
pub data Outcome {ℓ} (A : Type ℓ) : Type ℓ where
  returned : A → Outcome A
  threw : List ℕ → A → Outcome A

-- The state that a call leaves, whichever way it ends.
abbrev pub state_of {ℓ} : {A : Type ℓ} → Outcome A → A
state_of (returned a) = a
state_of (threw e a) = a

abbrev pub DoneCallback : Type 0 → Type 0
DoneCallback S = Option (ℕ → PizzaType → PizzaSize → S → S)

abbrev pub take_one : ℕ → ℕ
take_one load = if ltb 0 load then load - 1 else load

module _ {S : Type 0} (done_cb : DoneCallback S) where
  -- The handlers take the handle and what is shared.
  abbrev pub At : Type 0
  At = KitchenHandle × Shared S

  unfoldable pub call_done : ℕ → PizzaType → PizzaSize → S → S
  call_done id type size world = elim done_cb [ none ↦ world | some f ↦ f id type size world ]

  -- The rest of `handleDonePacket` once the factory has answered.
  unfoldable pub finish_done : Pizza → KitchenHandle → Shared S → Result PizzaRecipe → Outcome At
  unfolding call_done
  finish_done pizza kitchen shared (thrown e) = threw e (kitchen, shared)
  finish_done pizza kitchen shared (ok recipe) = returned (
    kitchen,
    record shared {
      log =
          shared.log
          ++ (record { kitchen_id = kitchen.id; pizza_name = get_name recipe.type } ∷ []);
      world = call_done kitchen.id pizza.type pizza.size shared.world;
    },
  )

  unfoldable pub handle_done_packet : KitchenHandle → Packet → Shared S → Outcome At
  unfolding finish_done
  handle_done_packet kitchen packet shared =
      let pizza = unpack packet.pizza in
      let made = create pizza.type pizza.size shared.registry in
      finish_done pizza (record kitchen { load = take_one kitchen.load })
        (record shared { registry = made.0 }) made.1

  unfoldable pub push_cook : KitchenHandle → Packet → List ℕ → KitchenHandle
  push_cook kitchen packet name = record kitchen {
    pending_cooks =
        kitchen.pending_cooks
        ++ (record {
          id = packet.cook.id;
          state = packet.cook.state;
          current_pizza = name;
          type = packet.cook.pizza_type;
          size = packet.cook.pizza_size;
        }
            ∷ []);
  }

  unfoldable pub finish_cook : KitchenHandle → Packet → Shared S → Result PizzaRecipe → Outcome At
  unfolding push_cook
  finish_cook kitchen packet shared (thrown e) = threw e (kitchen, shared)
  finish_cook kitchen packet shared (ok recipe) =
      returned (push_cook kitchen packet (get_name recipe.type), shared)

  -- A cook that is idle has no pizza's name.
  unfoldable pub handle_cook_status_packet : KitchenHandle → Packet → Shared S → Outcome At
  unfolding finish_cook push_cook
  handle_cook_status_packet kitchen packet shared =
      if packet.cook.state == cooking
      then (let made = create packet.cook.pizza_type packet.cook.pizza_size shared.registry in
          finish_cook kitchen packet (record shared { registry = made.0 }) made.1)
      else returned (push_cook kitchen packet [], shared)

  -- `status.stock[i] = quantities[i]` for the indices from `i` on.
  unfoldable pub store_stock : ℕ → List ℕ → Stock → Stock
  store_stock i [] stock = stock
  store_stock i (q ∷ quantities) stock = store_stock (i + 1) quantities (assign i q stock)

  unfoldable pub handle_status_reply_packet : KitchenHandle → Packet → KitchenHandle
  unfolding store_stock
  handle_status_reply_packet kitchen packet = record kitchen {
    status = record {
      id = kitchen.status.id;
      load = packet.load;
      capacity = packet.capacity;
      cooks = kitchen.pending_cooks;
      stock = store_stock 0 packet.stock kitchen.status.stock;
    };
    pending_cooks = [];
  }

  -- `wait` returns when the process has ended.
  unfoldable pub handle_shutdown_packet : KitchenHandle → KitchenHandle
  handle_shutdown_packet kitchen = record kitchen { alive = false; waited = true }

  unfoldable pub handle_full_packet : KitchenHandle → KitchenHandle
  handle_full_packet kitchen = record kitchen { load = take_one kitchen.load }

  unfoldable pub handle_packet : KitchenHandle → Packet → Shared S → Outcome At
  unfolding handle_done_packet handle_cook_status_packet handle_status_reply_packet
      handle_shutdown_packet handle_full_packet
  handle_packet kitchen packet shared =
      if packet.type == MessageType.done
      then handle_done_packet kitchen packet shared
      else if packet.type == MessageType.cook_status
      then handle_cook_status_packet kitchen packet shared
      else if packet.type == MessageType.status_reply
      then returned (handle_status_reply_packet kitchen packet, shared)
      else if packet.type == MessageType.shutdown
      then returned (handle_shutdown_packet kitchen, shared)
      else if packet.type == MessageType.full
      then returned (handle_full_packet kitchen, shared)
      else returned (kitchen, shared)
