-- ===== src/Reception/LoadBalancer/Polling/Keeping.antt =====
-- `getStatus` keeps the invariant, and what the callback keeps.
use plazza.Prelude.{ℕ, Bool, List, [], ◌∷◌, Option, none, some, if_both, not, ◌==◌}
use plazza.Ipc.{Packet}
use plazza.Pizza.{PizzaType, PizzaSize}
use plazza.Reception.{KitchenHandle, Shared, Outcome, returned, threw, state_of, DoneCallback}
use plazza.Reception.LoadBalancer.{LoadBalancer, Os, drain}
use plazza.Reception.LoadBalancer.Validity.{IsValid, visited-IsValid}
use plazza.Reception.LoadBalancer.World.{drain-Holds}
use plazza.Reception.LoadBalancer.Polling.{
  State, Processed, Requested, request_status_for_all, any_reply, after_packets, process_found,
  cons_processed, process_pending_kitchen, arrive, poll, after_polling, after_requests, get_status,
}
use plazza.Reception.LoadBalancer.Polling.Validity.{
  AtEnd, process_pending_kitchen-KeepsAll, poll-keeps,
}
use plazza.Reception.LoadBalancer.Polling.Requests.{
  arrive-KeepsAll, SameLoads, request_status_for_all-SameLoads, requested-IsValid,
}

module _ {S : Type 0} (done_cb : DoneCallback S) (os : Os) (Q : LoadBalancer S → Type 0)
    (processed : (id : ℕ) (lb : LoadBalancer S)
      → Q lb
      → (let st = (state_of (process_pending_kitchen done_cb id lb.kitchens lb.shared)).0 in
          Q (record lb { kitchens = st.0; shared = st.1 })))
    (arrived : (packets : ℕ → List Packet) (lb : LoadBalancer S)
      → Q lb
      → Q (record lb { kitchens = arrive packets lb.kitchens }))
    (requested : (lb : LoadBalancer S) (ks : List KitchenHandle)
      → SameLoads lb.kitchens ks
      → Q lb
      → Q (record lb { kitchens = ks })) where
  after_polling-keeps :
      (lb : LoadBalancer S) (o : Option (Outcome (State S)))
      → AtEnd (λ st. Q (record lb { kitchens = st.0; shared = st.1 })) o
      → AtEnd (λ answer. Q answer.0) (after_polling done_cb lb o)
  after_polling-keeps lb none h = tt
  after_polling-keeps lb (some (returned (ks, s))) h = h
  after_polling-keeps lb (some (threw e (ks, s))) h = h

  after_requests-keeps :
      (lb : LoadBalancer S) (fuel : ℕ) (arrivals : ℕ → ℕ → List Packet) (m : Outcome Requested)
      → Q (record lb { kitchens = (state_of m).0 })
      → AtEnd (λ answer. Q answer.0) (after_requests done_cb (poll done_cb fuel arrivals) lb m)
  after_requests-keeps lb fuel arrivals (threw e (ks, ids)) h = h
  after_requests-keeps lb fuel arrivals (returned (ks, ids)) h =
      after_polling-keeps lb (poll done_cb fuel arrivals ids (ks, lb.shared)) (
        poll-keeps done_cb (λ st. Q (record lb { kitchens = st.0; shared = st.1 }))
          (λ id st. processed id (record lb { kitchens = st.0; shared = st.1 }))
          (λ packets st. arrived packets (record lb { kitchens = st.0; shared = st.1 })) fuel
          arrivals ids (ks, lb.shared) h)

  get_status-keeps :
      (fuel : ℕ) (arrivals : ℕ → ℕ → List Packet) (lb : LoadBalancer S)
      → Q lb
      → AtEnd (λ answer. Q answer.0) (get_status done_cb os fuel arrivals lb)
  unfolding get_status
  get_status-keeps fuel arrivals lb h =
      after_requests-keeps lb fuel arrivals (request_status_for_all os lb.kitchens)
        (requested lb _ (request_status_for_all-SameLoads os lb.kitchens) h)

-- `getStatus` keeps the invariant, whatever packets it meets and whatever can be sent, also where
-- it ends in an exception.
pub get_status-IsValid :
    {S : Type 0} (done_cb : DoneCallback S) (os : Os) (fuel : ℕ) (arrivals : ℕ → ℕ → List Packet)
    (lb : LoadBalancer S)
    → IsValid lb
    → AtEnd (λ answer. IsValid answer.0) (get_status done_cb os fuel arrivals lb)
get_status-IsValid done_cb os =
    get_status-keeps done_cb os IsValid
      (λ id lb v.
        visited-IsValid done_cb lb _ _
          (process_pending_kitchen-KeepsAll done_cb id lb.kitchens lb.shared) v)
      (λ packets lb v.
        visited-IsValid done_cb lb _ lb.shared (arrive-KeepsAll packets lb.kitchens) v)
      (requested-IsValid os)

module _ {S : Type 0} (P : S → Type 0) (f : ℕ → PizzaType → PizzaSize → S → S)
    (keep : (id : ℕ) (type : PizzaType) (size : PizzaSize) (w : S)
      → P w
      → P (f id type size w)) where
  after_packets-world :
      (ks : List KitchenHandle) (got : Bool) (m : Outcome (KitchenHandle × Shared S))
      → P (state_of m).1.world
      → P (state_of (after_packets (some f) ks got m)).0.1.world
  after_packets-world ks got (returned a) h = h
  after_packets-world ks got (threw e a) h = h

  process_found-world :
      (k : KitchenHandle) (ks : List KitchenHandle) (s : Shared S)
      → P s.world
      → P (state_of (process_found (some f) k ks s)).0.1.world
  unfolding process_found
  process_found-world k ks s h =
      if_both (λ m. P (state_of {A = Processed S} m).0.1.world) (not k.alive) _ _ h
        (after_packets-world ks (any_reply k.result_queue) (drain (some f) k.result_queue k s)
          (drain-Holds P f keep k.result_queue k s h))

  cons_processed-world :
      (k : KitchenHandle) (m : Outcome (Processed S))
      → P (state_of m).0.1.world
      → P (state_of (cons_processed (some f) k m)).0.1.world
  cons_processed-world k (returned p) h = h
  cons_processed-world k (threw e p) h = h

  process_pending_kitchen-world :
      (id : ℕ) (ks : List KitchenHandle) (s : Shared S)
      → P s.world
      → P (state_of (process_pending_kitchen (some f) id ks s)).0.1.world
  unfolding process_pending_kitchen
  process_pending_kitchen-world id [] s h = h
  process_pending_kitchen-world id (k ∷ ks) s h =
      if_both (λ m. P (state_of {A = Processed S} m).0.1.world) (k.id == id) _ _
        (process_found-world k ks s h)
        (cons_processed-world k (process_pending_kitchen (some f) id ks s)
          (process_pending_kitchen-world id ks s h))

  pub get_status-world :
      (os : Os) (fuel : ℕ) (arrivals : ℕ → ℕ → List Packet) (lb : LoadBalancer S)
      → P lb.shared.world
      → AtEnd (λ answer. P answer.0.shared.world) (get_status (some f) os fuel arrivals lb)
  get_status-world os =
      get_status-keeps (some f) os (λ lb. P lb.shared.world)
        (λ id lb h. process_pending_kitchen-world id lb.kitchens lb.shared h) (λ packets lb h. h)
        (λ lb ks same h. h)
