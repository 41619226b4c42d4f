-- ===== src/Reception/LoadBalancer/Polling.antt =====
-- `LoadBalancer::getStatus`: the reception asks each kitchen for its status, and polls the result
-- queues until each has answered or ended. `arrivals` gives the packets that have come in for a
-- kitchen by a round, behind those that stand in its queue; the sleep between two rounds is left
-- out. Fuel bounds the rounds.
pub mod Answered
pub mod Rounds
pub mod Ending
pub mod Validity
pub mod Requests
pub mod Keeping
pub mod Silence
pub mod Stocks
pub mod Replies
pub mod Telling
use plazza.Prelude.{
  ℕ, zero, suc, Bool, true, false, not, ◌||◌, List, [], ◌∷◌, ◌++◌, Option, none, some, ◌==◌,
  if◌then◌else◌,
}
use plazza.Ipc.{Packet, zero_packet}
use plazza.Ipc.MessageType
use plazza.Reception.{KitchenHandle, KitchenStatus, Shared, Outcome, returned, threw, DoneCallback}
use plazza.Reception.LoadBalancer.{LoadBalancer, Os, append_order, drain}

abbrev pub request_packet : Packet
request_packet = record zero_packet { type = MessageType.status_request }

abbrev pub Requested : Type 0
Requested = List KitchenHandle × List ℕ

-- The request is sent, if `send` throws nothing.
abbrev pub ask : Option (List ℕ) → KitchenHandle → Outcome KitchenHandle
ask none kitchen = returned (append_order request_packet kitchen)
ask (some e) kitchen = threw e kitchen

module _ (os : Os) where
  -- The body of the loop of `requestStatusForAll`, for a kitchen that is alive.
  unfoldable pub request_status : KitchenHandle → Outcome KitchenHandle
  request_status kitchen =
      let cleared : KitchenHandle = record kitchen { pending_cooks = [] } in
      ask (os.send_error cleared request_packet) cleared

  abbrev pub cons_asked : KitchenHandle → Outcome Requested → Outcome Requested
  cons_asked kitchen (threw e (kitchens, ids)) = threw e (kitchen ∷ kitchens, ids)
  cons_asked kitchen (returned (kitchens, ids)) = returned (kitchen ∷ kitchens, kitchen.id ∷ ids)

  abbrev pub cons_passed : KitchenHandle → Outcome Requested → Outcome Requested
  cons_passed kitchen (threw e (kitchens, ids)) = threw e (kitchen ∷ kitchens, ids)
  cons_passed kitchen (returned (kitchens, ids)) = returned (kitchen ∷ kitchens, ids)

  -- An exception leaves the other kitchens as they are.
  abbrev pub after_request :
      List KitchenHandle → Outcome Requested → Outcome KitchenHandle → Outcome Requested
  after_request others rest (threw e kitchen) = threw e (kitchen ∷ others, [])
  after_request others rest (returned kitchen) = cons_asked kitchen rest

  unfoldable pub request_status_for_all : List KitchenHandle → Outcome Requested
  unfolding request_status
  request_status_for_all [] = returned ([], [])
  request_status_for_all (kitchen ∷ kitchens) =
      let rest = request_status_for_all kitchens in
      if kitchen.alive
      then after_request kitchens rest (request_status kitchen)
      else cons_passed kitchen rest

unfoldable pub any_reply : List Packet → Bool
any_reply [] = false
any_reply (packet ∷ packets) = (packet.type == MessageType.status_reply) || any_reply packets

unfoldable pub arrive : (ℕ → List Packet) → List KitchenHandle → List KitchenHandle
arrive arrived [] = []
arrive arrived (kitchen ∷ kitchens) =
    record kitchen { result_queue = kitchen.result_queue ++ arrived kitchen.id }
    ∷ arrive arrived kitchens

unfoldable pub statuses : List KitchenHandle → List KitchenStatus
statuses [] = []
statuses (kitchen ∷ kitchens) =
    let rest = statuses kitchens in if kitchen.alive then kitchen.status ∷ rest else rest

abbrev pub State : Type 0 → Type 0
State S = List KitchenHandle × Shared S

-- The kitchens, and whether the number is erased from those pending.
abbrev pub Processed : Type 0 → Type 0
Processed S = State S × Bool

-- The numbers that stay pending.
abbrev pub Polled : Type 0 → Type 0
Polled S = State S × List ℕ

abbrev pub Answer : Type 0 → Type 0
Answer S = LoadBalancer S × List KitchenStatus

module _ {S : Type 0} (done_cb : DoneCallback S) where
  abbrev pub after_packets :
      List KitchenHandle → Bool → Outcome (KitchenHandle × Shared S) → Outcome (Processed S)
  after_packets others got_reply (threw e (kitchen, shared)) =
      threw e ((kitchen ∷ others, shared), false)
  after_packets others got_reply (returned (kitchen, shared)) =
      returned ((kitchen ∷ others, shared), got_reply || not kitchen.alive)

  -- `processPendingKitchen` at the kitchen that it has found.
  unfoldable pub process_found :
      KitchenHandle → List KitchenHandle → Shared S → Outcome (Processed S)
  unfolding any_reply drain
  process_found kitchen others shared =
      if not kitchen.alive
      then returned ((kitchen ∷ others, shared), true)
      else after_packets others (any_reply kitchen.result_queue)
          (drain done_cb kitchen.result_queue kitchen shared)

  abbrev pub cons_processed : KitchenHandle → Outcome (Processed S) → Outcome (Processed S)
  cons_processed kitchen (threw e ((kitchens, shared), remove)) =
      threw e ((kitchen ∷ kitchens, shared), remove)
  cons_processed kitchen (returned ((kitchens, shared), remove)) =
      returned ((kitchen ∷ kitchens, shared), remove)

  unfoldable pub process_pending_kitchen : ℕ → List KitchenHandle → Shared S → Outcome (Processed S)
  unfolding process_found
  process_pending_kitchen id [] shared = returned (([], shared), true)
  process_pending_kitchen id (kitchen ∷ kitchens) shared =
      let rest = process_pending_kitchen id kitchens shared in
      if kitchen.id == id
      then process_found kitchen kitchens shared
      else cons_processed kitchen rest

  abbrev pub keep_id : Bool → ℕ → Outcome (Polled S) → Outcome (Polled S)
  keep_id remove id (threw e polled) = threw e polled
  keep_id remove id (returned (state, ids)) = returned (state, if remove then ids else id ∷ ids)

  abbrev pub after_kitchen :
      ℕ → (State S → Outcome (Polled S)) → Outcome (Processed S) → Outcome (Polled S)
  after_kitchen id rest (threw e (state, remove)) = threw e (state, [])
  after_kitchen id rest (returned (state, remove)) = keep_id remove id (rest state)

  -- One round of the `while` of `getStatus`.
  unfoldable pub poll_round : List ℕ → State S → Outcome (Polled S)
  unfolding process_pending_kitchen
  poll_round [] state = returned (state, [])
  poll_round (id ∷ ids) state =
      after_kitchen id (poll_round ids) (process_pending_kitchen id state.0 state.1)

  abbrev pub after_round :
      (List ℕ → State S → Option (Outcome (State S)))
      → Outcome (Polled S)
      → Option (Outcome (State S))
  after_round rest (threw e (state, ids)) = some (threw e state)
  after_round rest (returned (state, ids)) = rest ids state

  unfoldable pub poll : ℕ → (ℕ → ℕ → List Packet) → List ℕ → State S → Option (Outcome (State S))
  unfolding poll_round arrive
  poll fuel arrivals [] state = some (returned state)
  poll zero arrivals (id ∷ ids) state = none
  poll (suc fuel) arrivals (id ∷ ids) (kitchens, shared) =
      after_round (poll fuel (λ round. arrivals (suc round)))
        (poll_round (id ∷ ids) (arrive (arrivals zero) kitchens, shared))

  abbrev pub after_polling :
      LoadBalancer S → Option (Outcome (State S)) → Option (Outcome (Answer S))
  after_polling lb none = none
  after_polling lb (some (threw e (kitchens, shared))) =
      some (threw e (record lb { kitchens = kitchens; shared = shared }, []))
  after_polling lb (some (returned (kitchens, shared))) =
      some (returned (record lb { kitchens = kitchens; shared = shared }, statuses kitchens))

  abbrev pub after_requests :
      (List ℕ → State S → Option (Outcome (State S)))
      → LoadBalancer S
      → Outcome (List KitchenHandle × List ℕ)
      → Option (Outcome (Answer S))
  after_requests rest lb (threw e (kitchens, ids)) =
      some (threw e (record lb { kitchens = kitchens }, []))
  after_requests rest lb (returned (kitchens, ids)) =
      after_polling lb (rest ids (kitchens, lb.shared))

  unfoldable pub get_status :
      Os → ℕ → (ℕ → ℕ → List Packet) → LoadBalancer S → Option (Outcome (Answer S))
  unfolding request_status_for_all poll statuses
  get_status os fuel arrivals lb =
      after_requests (poll fuel arrivals) lb (request_status_for_all os lb.kitchens)
