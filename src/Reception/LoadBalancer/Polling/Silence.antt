-- ===== src/Reception/LoadBalancer/Polling/Silence.antt =====
-- A kitchen that never answers.
use plazza.Prelude.{ℕ, true, List, []}
use plazza.Ipc.{Packet}
use plazza.Reception.{KitchenHandle}
use plazza.Reception.LoadBalancer.{LoadBalancer, append_order}
use plazza.Reception.LoadBalancer.Polling.{request_packet}

abbrev pub nothing : ℕ → ℕ → List Packet
nothing round id = []

-- The handle, alive and with an empty queue of results.
abbrev pub silent : KitchenHandle → KitchenHandle
silent k = record k { alive = true; result_queue = [] }

abbrev pub asked : KitchenHandle → KitchenHandle
asked k = append_order request_packet (record k { pending_cooks = [] })
