-- ===== src/Reception/Link.antt =====
-- A kitchen and the reception's handle of it: reception/loadBalancer/LoadBalancer.cpp and
-- kitchen/KitchenWorker.cpp, joined by the two message queues of the kitchen. A queue is the list
-- of all that was sent to it; `taken` and `read` are the parts at its front that the kitchen and the
-- reception have received. `lost` lists the pizzas that a cook has dropped.
pub mod Load
pub mod Accounts
pub mod Outstanding
pub mod Settled
pub mod Examples
use plazza.Prelude.{◌≡◌, true, List, [], ◌∷◌, ◌++◌, Option, ℕ}
use plazza.Pizza.{PizzaOrder}
use plazza.Pizza.Recipe.{PizzaRecipe}
use plazza.Ipc.{Packet}
use plazza.Kitchen.KitchenWorker.{KitchenWorker}
use plazza.Kitchen.KitchenWorker.Steps.{Step, new_worker}
use plazza.Reception.{KitchenHandle, Shared, DoneCallback, state_of, handle_packet}
use plazza.Reception.LoadBalancer.{new_handle, has_room, accept_pizza, append_order, pizza_packet}
use plazza.Reception.LoadBalancer.Polling.{request_packet}
use plazza.Reception.LoadBalancer.Shutdown.{closed_handle}

pub record Link (S : Type 0) : Type 0 where
  pub handle : KitchenHandle
  pub shared : Shared S
  pub worker : KitchenWorker
  pub taken : List Packet
  pub read : List Packet
  pub lost : List PizzaRecipe

-- `spawnKitchen`, and the start of the kitchen.
abbrev pub spawned : {S : Type 0} → ℕ → ℕ → ℕ → Shared S → Link S
spawned id n_cooks now shared = record {
  handle = new_handle id n_cooks;
  shared = shared;
  worker = new_worker n_cooks now;
  taken = [];
  read = [];
  lost = [];
}

-- What a request for the status does to the handle.
abbrev pub asked_handle : KitchenHandle → KitchenHandle
asked_handle kitchen = append_order request_packet (record kitchen { pending_cooks = [] })

module _ {S : Type 0} (done_cb : DoneCallback S) (send_error : Packet → Option (List ℕ)) where
  -- A step of the reception or of the kitchen. `queued` is what the handle shows of the results when
  -- it handles a packet.
  pub data LinkStep (l : Link S) : Link S → Type 0 where
    sends :
        (order : PizzaOrder)
        → has_room l.handle ≡ true
        → LinkStep l (record l { handle = accept_pizza (pizza_packet order) l.handle })
    asks : LinkStep l (record l { handle = asked_handle l.handle })
    closes : LinkStep l (record l { handle = closed_handle l.handle })
    reads :
        (packet : Packet) (unread queued : List Packet) (handle : KitchenHandle) (shared : Shared S)
        → l.worker.pool.results ≡ l.read ++ (packet ∷ unread)
        → state_of
            (handle_packet done_cb (record l.handle { result_queue = queued }) packet l.shared)
          ≡ (handle, shared)
        → LinkStep l (record l { handle = handle; shared = shared; read = l.read ++ (packet ∷ []) })
    takes :
        (packet : Packet) (waiting : List Packet) (t : KitchenWorker)
        → l.handle.order_queue ≡ l.taken ++ (packet ∷ waiting)
        → Step send_error l.worker (packet ∷ []) [] t
        → LinkStep l (record l { worker = t; taken = l.taken ++ (packet ∷ []) })
    cooks :
        (more : List PizzaRecipe) (t : KitchenWorker)
        → Step send_error l.worker [] more t
        → LinkStep l (record l { worker = t; lost = l.lost ++ more })

  pub data Reach (l : Link S) : Link S → Type 0 where
    here : Reach l l
    next : {m n : Link S} → Reach l m → LinkStep m n → Reach l n
