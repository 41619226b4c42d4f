-- ===== src/Reception/Link/Settled.antt =====
-- What `updateKitchens` leaves of the load of a kitchen, once it has read what has come in.
use plazza.Prelude.{ℕ, ◌+◌, ◌≡◌, List, [], ◌∷◌, ◌++◌, Option, length, total}
use plazza.Ipc.{Packet}
use plazza.Kitchen.ThreadPool.Refusal.{unannounced}
use plazza.Kitchen.KitchenWorker.Weights.{ordered_in}
use plazza.Reception.{KitchenHandle, Shared, DoneCallback, Outcome, state_of}
use plazza.Reception.LoadBalancer.Outcomes.{OnReturn}
use plazza.Reception.Link.{Link, Reach}
use plazza.Reception.Link.Load.{ones}

module _ {S : Type 0} (done_cb : DoneCallback S) (send_error : Packet → Option (List ℕ)) where
  -- The kitchen aside, `l` steps to what a call leaves.
  record Drained (l : Link S) (packets : List Packet) (o : Outcome (KitchenHandle × Shared S))
      : Type 0 where
    after : Link S
    reach : Reach done_cb send_error l after
    handle_is : after.handle ≡ (state_of o).0
    same_worker : after.worker ≡ l.worker
    same_taken : after.taken ≡ l.taken
    same_lost : after.lost ≡ l.lost
    all_read : OnReturn (λ a. after.read ≡ l.read ++ packets) o

  -- The link once the reception has read one more packet.
  abbrev read_one : Link S → Packet → KitchenHandle → Shared S → Link S
  read_one l packet k shared = record l {
    handle = k;
    shared = shared;
    read = l.read ++ (packet ∷ []);
  }

  -- The load is that of the pizzas that the kitchen has not announced.
  pub record IsSettled (l : Link S) (k : KitchenHandle) : Type 0 where
    pub waiting : List Packet
    pub sent_is : k.order_queue ≡ l.taken ++ waiting
    pub load :
        k.load
        ≡ total (ordered_in ones) waiting
          + length l.worker.pool.queue
          + total unannounced l.worker.pool.workers
          + length l.lost
