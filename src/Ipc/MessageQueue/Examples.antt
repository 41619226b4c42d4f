-- ===== src/Ipc/MessageQueue/Examples.antt =====
-- The theorems of message queues at a kernel with a queue of an earlier run, and at two queues.
use plazza.Prelude.{ℕ, ◌≡◌, refl, List, [], ◌∷◌, some, none, codes, true, false}
use plazza.Ipc.{Packet, zero_packet}
use plazza.Ipc.MessageQueue.{MessageQueue}
use plazza.Ipc.MessageQueue.Fifo.{put, take, Call, SpecRun, run}
use plazza.Ipc.MessageQueue.Refinement.{run-SpecRun}
use plazza.Ipc.MessageQueue.Ownership.{
  Queues, Operation, constructed, move_constructed, move_assigned, destroyed, operate_all,
}
use plazza.Ipc.MessageQueue.Ownership.Accounts.{IsAccounted, operate_all-IsAccounted}
use plazza.Ipc.MessageQueue.Opening.{creator}
use plazza.Ipc.MessageQueue.Model.{Kernel, no_queues, write, model, model-Delivers, model-Opens}

abbrev full_packet : Packet
full_packet = record zero_packet { type = 7; kitchen_id = 2 }

abbrev queue_path : List ℕ
queue_path = codes "/tmp/q"

-- The queues 0 and 1, of which 0 holds a packet.
abbrev two_queues : Kernel
two_queues = write 0 (some (zero_packet ∷ [])) (write 1 (some []) no_queues)

abbrev first_end : MessageQueue
first_end = creator model model-Delivers model-Opens queue_path 0

abbrev second_end : MessageQueue
second_end = creator model model-Delivers model-Opens (codes "/tmp/qq") 1

-- The other queue is used between, and a queue that was moved from refuses.
abbrev calls : List Call
calls =
    (first_end, put full_packet)
    ∷ (second_end, put zero_packet)
    ∷ (first_end, take)
    ∷ (first_end, take)
    ∷ (first_end, take)
    ∷ []

run-SpecRun_example :
    (last : List Packet) × SpecRun 0 (zero_packet ∷ []) calls (run model calls two_queues).1 last
    × (model-Delivers.contents 0 (run model calls two_queues).0 ≡ some last)
run-SpecRun_example = run-SpecRun model model-Delivers 0 calls (zero_packet ∷ []) two_queues refl

-- Two queues are made and one of them is opened a second time; an object is moved, assigned over,
-- and all places are destroyed.
abbrev no_objects : Queues model
no_objects = record { objects = none ∷ none ∷ none ∷ []; kernel = (two_queues, []); made = [] }

abbrev handovers : List Operation
handovers =
    constructed 0 0 queue_path true
    ∷ constructed 1 1 (codes "/tmp/qq") true
    ∷ move_constructed 2 0
    ∷ destroyed 0
    ∷ constructed 0 1 (codes "/tmp/qq") false
    ∷ move_assigned 2 1
    ∷ destroyed 0
    ∷ destroyed 1
    ∷ destroyed 2
    ∷ []

operate_all-IsAccounted_example : IsAccounted model 1 (operate_all model handovers no_objects)
operate_all-IsAccounted_example = operate_all-IsAccounted model 1 handovers no_objects refl
