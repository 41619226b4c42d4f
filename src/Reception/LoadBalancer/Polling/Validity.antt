-- ===== src/Reception/LoadBalancer/Polling/Validity.antt =====
-- What `getStatus` keeps: the invariant of the load balancer, and what the callback for a pizza
-- that is done keeps.
use plazza.Prelude.{ℕ, zero, suc, Bool, List, [], ◌∷◌, Option, none, some, if_both, ◌==◌, not}
use plazza.Ipc.{Packet}
use plazza.Reception.{KitchenHandle, Shared, Outcome, returned, threw, state_of, DoneCallback}
use plazza.Reception.LoadBalancer.{drain}
use plazza.Reception.LoadBalancer.Receiving.{Keeps, KeepsAll, KeepsAll-refl, drain-Keeps}
use plazza.Reception.LoadBalancer.Polling.{
  State, Processed, Polled, any_reply, after_packets, process_found, cons_processed,
  process_pending_kitchen, keep_id, after_kitchen, arrive, poll_round, after_round, poll,
}

-- `Q` holds of the state that a call which ends leaves.
abbrev pub AtEnd : {A : Type 0} → (A → Type 0) → Option (Outcome A) → Type 0
AtEnd Q none = Unit
AtEnd Q (some o) = Q (state_of o)

module _ {S : Type 0} (done_cb : DoneCallback S) where
  after_packets-KeepsAll :
      (k : KitchenHandle) (ks : List KitchenHandle) (got : Bool)
      (m : Outcome (KitchenHandle × Shared S))
      → Keeps k (state_of m).0
      → KeepsAll (k ∷ ks) (state_of (after_packets done_cb ks got m)).0.0
  after_packets-KeepsAll k ks got (returned a) h = (h, KeepsAll-refl done_cb ks)
  after_packets-KeepsAll k ks got (threw e a) h = (h, KeepsAll-refl done_cb ks)

  process_found-KeepsAll :
      (k : KitchenHandle) (ks : List KitchenHandle) (shared : Shared S)
      → KeepsAll (k ∷ ks) (state_of (process_found done_cb k ks shared)).0.0
  unfolding process_found
  process_found-KeepsAll k ks shared =
      if_both (λ m. KeepsAll (k ∷ ks) (state_of {A = Processed S} m).0.0) (not k.alive) _ _
        (KeepsAll-refl done_cb (k ∷ ks))
        (after_packets-KeepsAll k ks (any_reply k.result_queue)
          (drain done_cb k.result_queue k shared) (drain-Keeps done_cb k.result_queue k shared))

  cons_processed-KeepsAll :
      (k : KitchenHandle) (ks : List KitchenHandle) (m : Outcome (Processed S))
      → KeepsAll ks (state_of m).0.0
      → KeepsAll (k ∷ ks) (state_of (cons_processed done_cb k m)).0.0
  cons_processed-KeepsAll k ks (returned p) h = ((KeepsAll-refl done_cb (k ∷ [])).0, h)
  cons_processed-KeepsAll k ks (threw e p) h = ((KeepsAll-refl done_cb (k ∷ [])).0, h)

  pub process_pending_kitchen-KeepsAll :
      (id : ℕ) (ks : List KitchenHandle) (shared : Shared S)
      → KeepsAll ks (state_of (process_pending_kitchen done_cb id ks shared)).0.0
  unfolding process_pending_kitchen
  process_pending_kitchen-KeepsAll id [] shared = tt
  process_pending_kitchen-KeepsAll id (k ∷ ks) shared =
      if_both (λ m. KeepsAll (k ∷ ks) (state_of {A = Processed S} m).0.0) (k.id == id) _ _
        (process_found-KeepsAll k ks shared)
        (cons_processed-KeepsAll k ks (process_pending_kitchen done_cb id ks shared)
          (process_pending_kitchen-KeepsAll id ks shared))

-- What the processing of a kitchen and an arrival keep, the polling keeps.
module _ {S : Type 0} (done_cb : DoneCallback S) (Q : State S → Type 0)
    (processed : (id : ℕ) (state : State S)
      → Q state
      → Q (state_of (process_pending_kitchen done_cb id state.0 state.1)).0)
    (arrived : (packets : ℕ → List Packet) (state : State S)
      → Q state
      → Q (arrive packets state.0, state.1)) where
  keep_id-keeps :
      (remove : Bool) (id : ℕ) (m : Outcome (Polled S))
      → Q (state_of m).0
      → Q (state_of (keep_id done_cb remove id m)).0
  keep_id-keeps remove id (returned p) h = h
  keep_id-keeps remove id (threw e p) h = h

  after_kitchen-keeps :
      (id : ℕ) (rest : State S → Outcome (Polled S)) (m : Outcome (Processed S))
      → Q (state_of m).0
      → ((state : State S) → Q state → Q (state_of (rest state)).0)
      → Q (state_of (after_kitchen done_cb id rest m)).0
  after_kitchen-keeps id rest (returned (state, remove)) h r =
      keep_id-keeps remove id (rest state) (r state h)
  after_kitchen-keeps id rest (threw e p) h r = h

  poll_round-keeps :
      (ids : List ℕ) (state : State S) → Q state → Q (state_of (poll_round done_cb ids state)).0
  unfolding poll_round
  poll_round-keeps [] state h = h
  poll_round-keeps (id ∷ ids) state h =
      after_kitchen-keeps id (poll_round done_cb ids)
        (process_pending_kitchen done_cb id state.0 state.1) (processed id state h)
        (poll_round-keeps ids)

  after_round-keeps :
      (rest : List ℕ → State S → Option (Outcome (State S))) (m : Outcome (Polled S))
      → Q (state_of m).0
      → ((ids : List ℕ) (state : State S) → Q state → AtEnd Q (rest ids state))
      → AtEnd Q (after_round done_cb rest m)
  after_round-keeps rest (returned (state, ids)) h r = r ids state h
  after_round-keeps rest (threw e (state, ids)) h r = h

  pub poll-keeps :
      (fuel : ℕ) (arrivals : ℕ → ℕ → List Packet) (ids : List ℕ) (state : State S)
      → Q state
      → AtEnd Q (poll done_cb fuel arrivals ids state)
  unfolding poll
  poll-keeps zero arrivals [] state h = h
  poll-keeps (suc fuel) arrivals [] state h = h
  poll-keeps zero arrivals (id ∷ ids) state h = tt
  poll-keeps (suc fuel) arrivals (id ∷ ids) (ks, shared) h =
      let here : State S = (arrive (arrivals zero) ks, shared) in
      after_round-keeps (poll done_cb fuel (λ round. arrivals (suc round)))
        (poll_round done_cb (id ∷ ids) here)
        (poll_round-keeps (id ∷ ids) here (arrived (arrivals zero) (ks, shared) h))
        (poll-keeps fuel (λ round. arrivals (suc round)))
