-- ===== src/Reception/Link/Load.antt =====
-- What a packet from a kitchen does to the load of its handle.
use plazza.Prelude.{List, ℕ, ◌+◌, ◌≤◌, ◌≡◌, arith}
use plazza.Pizza.{Pizza}
use plazza.Ipc.{Packet}
use plazza.Reception.{KitchenHandle, Shared, DoneCallback, state_of, handle_packet}
use plazza.Kitchen.KitchenWorker.Weights.{answered_in}

-- Each pizza counts 1.
abbrev pub ones : Pizza → ℕ
ones pizza = 1

-- A packet that answers a pizza takes one from the load, where there is one to take.
pub record Drops (n : ℕ) (k k' : KitchenHandle) : Type 0 where
  pub same_orders : k'.order_queue ≡ k.order_queue
  pub same_capacity : k'.capacity ≡ k.capacity
  pub load : n ≤ k.load → k'.load + n ≡ k.load

module _ {S : Type 0} (done_cb : DoneCallback S) where
  pub handle_packet-Drops :
      (k : KitchenHandle) (queued : List Packet) (packet : Packet) (shared : Shared S)
      → Drops
          (answered_in ones packet)
          k
          (state_of (handle_packet done_cb (record k { result_queue = queued }) packet shared)).0
  unfolding handle_packet
  handle_packet-Drops k queued packet shared = ground arith
