-- ===== src/Reception/LoadBalancer/Polling/Ending.antt =====
-- The polling ends once every kitchen has answered or ended.
use plazza.Prelude.{
  ℕ, zero, suc, ◌≤◌, ◌<◌, ◌≡◌, refl, true, false, List, [], ◌∷◌, Option, none, some, All, ◌==◌,
  if_both, arith,
}
use plazza.Ipc.{Packet}
use plazza.Reception.{KitchenHandle, Outcome, returned, threw, DoneCallback}
use plazza.Reception.LoadBalancer.{LoadBalancer, Os}
use plazza.Reception.LoadBalancer.Kitchens.{Ascending}
use plazza.Reception.LoadBalancer.Outcomes.{OnReturn}
use plazza.Reception.LoadBalancer.Polling.{
  State, Polled, Requested, request_packet, ask, request_status, after_request, cons_passed,
  request_status_for_all, arrive, poll_round, poll, after_round, after_requests, after_polling,
  get_status,
}
use plazza.Reception.LoadBalancer.Polling.Answered.{answered, settles, answered-arrive}
use plazza.Reception.LoadBalancer.Polling.Rounds.{
  Distinct, Leaves, Pending, All-map, poll_round-Leaves,
}

-- Before the last round, an answer or the announcement of the end has come in for the kitchen.
abbrev pub SettlesBy : ℕ → (ℕ → ℕ → List Packet) → ℕ → Type 0
SettlesBy fuel arrivals id = (round : ℕ) × (round < fuel) × (settles (arrivals round id) ≡ true)

abbrev pub Ends : {A : Type 0} → Option A → Type 0
Ends {A} o = (a : A) × (o ≡ some a)

-- Who has not answered in the first round answers in a later one.
SettlesBy-later :
    (fuel : ℕ) (arrivals : ℕ → ℕ → List Packet) (ks : List KitchenHandle) (id : ℕ)
    → SettlesBy (suc fuel) arrivals id
    → answered id (arrive (arrivals zero) ks) ≡ false
    → SettlesBy fuel (λ round. arrivals (suc round)) id
SettlesBy-later fuel arrivals ks id (zero, lt, s) open_still =
    let done = answered-arrive (arrivals zero) id ks s in absurd (cc)
SettlesBy-later fuel arrivals ks id (suc round, lt, s) open_still = (round, omega arith, s)

module _ {S : Type 0} (done_cb : DoneCallback S) where
  after_round-Ends :
      (P : ℕ → Type 0) (rest : List ℕ → State S → Option (Outcome (State S)))
      (m : Outcome (Polled S))
      → OnReturn (Leaves P) m
      → ((ids : List ℕ) (state : State S) → All P ids → Distinct ids → Ends (rest ids state))
      → Ends (after_round done_cb rest m)
  after_round-Ends P rest (threw e (state, ids)) h r = (threw e state, refl)
  after_round-Ends P rest (returned (state, ids)) h r = r ids state h.0 h.1

  poll-Ends :
      (fuel : ℕ) (arrivals : ℕ → ℕ → List Packet) (ids : List ℕ) (state : State S)
      → All (SettlesBy fuel arrivals) ids
      → Distinct ids
      → Ends (poll done_cb fuel arrivals ids state)
  unfolding poll
  poll-Ends zero arrivals [] state h d = (returned state, refl)
  poll-Ends (suc fuel) arrivals [] state h d = (returned state, refl)
  poll-Ends zero arrivals (id ∷ ids) state ((round, lt, s), h) d = absurd (omega arith)
  poll-Ends (suc fuel) arrivals (id ∷ ids) (ks, shared) h d =
      let here : List KitchenHandle = arrive (arrivals zero) ks in
      let P : ℕ → Type 0 = SettlesBy (suc fuel) arrivals in
      after_round-Ends (Pending done_cb P here) (poll done_cb fuel (λ round. arrivals (suc round)))
        (poll_round done_cb (id ∷ ids) (here, shared))
        (poll_round-Leaves done_cb P (id ∷ ids) (here, shared) d h)
        (λ left state all distinct.
          poll-Ends fuel (λ round. arrivals (suc round)) left state
            (All-map (Pending done_cb P here) (SettlesBy fuel (λ round. arrivals (suc round))) left
              (λ other p. SettlesBy-later fuel arrivals ks other p.0 p.1) all)
            distinct)

-- The numbers asked: those of kitchens, from `lo` on, different.
abbrev pub Asked : (ℕ → Type 0) → ℕ → List KitchenHandle × List ℕ → Type 0
Asked P lo r = All (λ id. (lo ≤ id) × P id) r.1 × Distinct r.1

module _ (os : Os) (P : ℕ → Type 0) where
  Asked-mono :
      (lo lo' : ℕ) (ids : List ℕ)
      → lo' ≤ lo
      → All (λ id. (lo ≤ id) × P id) ids
      → All (λ id. (lo' ≤ id) × P id) ids
  Asked-mono lo lo' ids le all =
      All-map (λ id. (lo ≤ id) × P id) (λ id. (lo' ≤ id) × P id) ids
        (λ id h. (omega (arith, h.0), h.1)) all

  cons_passed-Asked :
      (lo : ℕ) (k : KitchenHandle) (rest : Outcome Requested)
      → lo ≤ k.id
      → OnReturn (Asked P (suc k.id)) rest
      → OnReturn (Asked P lo) (cons_passed os k rest)
  cons_passed-Asked lo k (threw e r) le h = tt
  cons_passed-Asked lo k (returned (ks, ids)) le h =
      (Asked-mono (suc k.id) lo ids (omega arith) h.0, h.1)

  after_request-Asked :
      (lo : ℕ) (k : KitchenHandle) (ks : List KitchenHandle) (rest : Outcome Requested)
      (m : Outcome KitchenHandle)
      → lo ≤ k.id
      → P k.id
      → OnReturn (λ k'. k'.id ≡ k.id) m
      → OnReturn (Asked P (suc k.id)) rest
      → OnReturn (Asked P lo) (after_request os ks rest m)
  after_request-Asked lo k ks rest (threw e k') le p same h = tt
  after_request-Asked lo k ks (threw e r) (returned k') le p same h = tt
  after_request-Asked lo k ks (returned (js, ids)) (returned k') le p same h = rw same (
    ((le, p), Asked-mono (suc k.id) lo ids (omega arith) h.0),
    (
      All-map (λ id. (suc k.id ≤ id) × P id) (λ id. (k.id == id) ≡ false) ids
          (λ id q. let above = q.0 in ground arith) h.0,
      h.1,
    ),
  )

  ask_id : (o : Option (List ℕ)) (k : KitchenHandle) → OnReturn (λ k'. k'.id ≡ k.id) (ask o k)
  ask_id none k = refl
  ask_id (some e) k = tt

  request_status_id : (k : KitchenHandle) → OnReturn (λ k'. k'.id ≡ k.id) (request_status os k)
  unfolding request_status
  request_status_id k = ask_id (os.send_error _ request_packet) (record k { pending_cooks = [] })

  request_status_for_all-Asked :
      (lo hi : ℕ) (ks : List KitchenHandle)
      → Ascending lo ks hi
      → All (λ k. P k.id) ks
      → OnReturn (Asked P lo) (request_status_for_all os ks)
  unfolding request_status_for_all
  request_status_for_all-Asked lo hi [] a h = (tt, tt)
  request_status_for_all-Asked lo hi (k ∷ ks) a h =
      let rest = request_status_for_all-Asked (suc k.id) hi ks a.1 h.1 in
      if_both (OnReturn (Asked P lo)) k.alive _ _
        (after_request-Asked lo k ks (request_status_for_all os ks) (request_status os k) a.0 h.0
          (request_status_id k) rest)
        (cons_passed-Asked lo k (request_status_for_all os ks) a.0 rest)

module _ {S : Type 0} (done_cb : DoneCallback S) where
  after_polling-Ends :
      (lb : LoadBalancer S) (o : Option (Outcome (State S)))
      → Ends o
      → Ends (after_polling done_cb lb o)
  after_polling-Ends lb none (a, e) = absurd (cc)
  after_polling-Ends lb (some (threw x (ks, s))) h = (_, refl)
  after_polling-Ends lb (some (returned (ks, s))) h = (_, refl)

  after_requests-Ends :
      (P : ℕ → Type 0) (rest : List ℕ → State S → Option (Outcome (State S))) (lb : LoadBalancer S)
      (m : Outcome Requested)
      → OnReturn (Asked P 0) m
      → ((ids : List ℕ) (state : State S) → All P ids → Distinct ids → Ends (rest ids state))
      → Ends (after_requests done_cb rest lb m)
  after_requests-Ends P rest lb (threw e (ks, ids)) h r = (_, refl)
  after_requests-Ends P rest lb (returned (ks, ids)) h r =
      after_polling-Ends lb (rest ids (ks, lb.shared))
        (r ids (ks, lb.shared) (All-map (λ id. (0 ≤ id) × P id) P ids (λ id q. q.1) h.0) h.1)

  -- `getStatus` ends, by returning or by an exception, whatever packets come in and whatever can
  -- be sent, within as many rounds of polling as it takes until an answer or the announcement of
  -- the end has come in from each kitchen; the kitchens have different numbers.
  pub get_status-Ends :
      (os : Os) (fuel : ℕ) (arrivals : ℕ → ℕ → List Packet) (lb : LoadBalancer S)
      → Ascending 0 lb.kitchens lb.next_kitchen_id
      → All (λ k. SettlesBy fuel arrivals k.id) lb.kitchens
      → Ends (get_status done_cb os fuel arrivals lb)
  unfolding get_status
  get_status-Ends os fuel arrivals lb a h =
      after_requests-Ends (SettlesBy fuel arrivals) (poll done_cb fuel arrivals) lb
        (request_status_for_all os lb.kitchens)
        (request_status_for_all-Asked os (SettlesBy fuel arrivals) 0 lb.next_kitchen_id lb.kitchens
          a h)
        (λ ids state. poll-Ends done_cb fuel arrivals ids state)
