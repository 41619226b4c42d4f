-- ===== src/Reception/LoadBalancer/Polling/Replies.antt =====
-- What getStatus does where every kitchen answers.
use plazza.Prelude.{
  ℕ, zero, suc, ◌≡◌, refl, sym, ap, ◌∙◌, not, true, ◌||◌, List, [], ◌∷◌, ◌++◌, map, none, some, All,
  All-append, append_assoc, ◌==◌, ==_iff, arith, if_true, if_false,
}
use plazza.Ipc.{Packet}
use plazza.Pizza.FactoryLaws.{IsBuiltIn}
use plazza.Kitchen.Cook.{CookStatus}
use plazza.Kitchen.ThreadPool
use plazza.Kitchen.ThreadPool.{ThreadPool}
use plazza.Kitchen.KitchenWorker.{cook_packet, reply_packet, answer}
use plazza.Kitchen.KitchenWorker.Answers.{IsSendable, told, drain-answer-IsBuiltIn}
use plazza.Reception.{KitchenHandle, KitchenStatus, Shared, returned, DoneCallback}
use plazza.Reception.LoadBalancer.{LoadBalancer, Os, append_order, drain}
use plazza.Reception.LoadBalancer.Kitchens.{
  Ascending, IsOther, IsBelow, IsBelow-IsOther, IsBelow-raised,
}
use plazza.Reception.LoadBalancer.Validity.{IsValid}
use plazza.Reception.LoadBalancer.Polling.{
  request_packet, request_status, request_status_for_all, cons_asked, after_request, ask, any_reply,
  arrive, statuses, State, after_packets, process_found, cons_processed, process_pending_kitchen,
  poll_round, poll, get_status, after_kitchen, keep_id, after_round, after_polling, after_requests,
}

any_reply-answer :
    (stock : List ℕ) (pool : ThreadPool) (cs : List CookStatus)
    → any_reply (map cook_packet cs ++ (reply_packet stock pool ∷ [])) ≡ true
unfolding any_reply cook_packet reply_packet
any_reply-answer stock pool [] = refl
any_reply-answer stock pool (c ∷ cs) = any_reply-answer stock pool cs

-- A kitchen with no packet left over, that is alive.
pub record IsIdle (k : KitchenHandle) : Type 0 where
  pub is_alive : k.alive ≡ true
  pub nothing_left : k.result_queue ≡ []

module _ {S : Type 0} (done_cb : DoneCallback S) (os : Os)
    (sends : (k : KitchenHandle) (p : Packet) → os.send_error k p ≡ none) (stock_of : ℕ → List ℕ)
    (pool_of : ℕ → ThreadPool)
    (fits : (id : ℕ) → All IsSendable (ThreadPool.get_status (pool_of id))) where
  -- The handle that a request leaves, with the answer in its queue, and once that is received.
  abbrev pub asked : KitchenHandle → KitchenHandle
  asked k = append_order request_packet (record k { pending_cooks = [] })

  abbrev pub answer_of : ℕ → List Packet
  answer_of id = answer (stock_of id) (pool_of id)

  abbrev pub ready : KitchenHandle → KitchenHandle
  ready k = record (asked k) { result_queue = k.result_queue ++ answer_of k.id }

  abbrev pub answered : KitchenHandle → KitchenHandle
  answered k =
      told done_cb (stock_of k.id) (pool_of k.id) (ready k) (ThreadPool.get_status (pool_of k.id))

  request_status_for_all-asked :
      (ks : List KitchenHandle)
      → All IsIdle ks
      → request_status_for_all os ks ≡ returned (map asked ks, map (λ k. k.id) ks)
  unfolding request_status_for_all request_status
  request_status_for_all-asked [] h = refl
  request_status_for_all-asked (k ∷ ks) h =
      let rest = request_status_for_all os ks in
      let cleared : KitchenHandle = record k { pending_cooks = [] } in
      if_true k.alive _ _ h.0.is_alive
      ∙ ap (λ o. after_request os ks rest (ask o cleared)) (sends cleared request_packet)
      ∙ ap (cons_asked os (asked k)) (request_status_for_all-asked ks h.1)

  arrive-ready : (ks : List KitchenHandle) → arrive answer_of (map asked ks) ≡ map ready ks
  unfolding arrive
  arrive-ready [] = refl
  arrive-ready (k ∷ ks) = ap (λ l. ready k ∷ l) (arrive-ready ks)

  -- The kitchen is found and its answer received.
  process_found-answered :
      (k : KitchenHandle) (others : List KitchenHandle) (shared : Shared S)
      → IsIdle k
      → IsBuiltIn shared.registry
      → (shared' : Shared S) × IsBuiltIn shared'.registry
        × (process_found done_cb (ready k) others shared
            ≡ returned ((answered k ∷ others, shared'), true))
  unfolding process_found answer
  process_found-answered k others shared idle built =
      let told_all : List Packet = answer_of k.id in
      let (shared', built', e) =
        drain-answer-IsBuiltIn done_cb (stock_of k.id) (pool_of k.id) (ready k) shared built
          (fits k.id) refl in
      (
        shared',
        built',
        if_false (not k.alive) _ _ (ap not idle.is_alive)
            ∙ ap
                (λ q. after_packets done_cb others (any_reply q) (drain done_cb q (ready k) shared))
                (ap (λ q. q ++ told_all) idle.nothing_left)
            ∙ ap (after_packets done_cb others (any_reply told_all)) e
            ∙ ap (λ b. returned ((answered k ∷ others, shared'), b || not k.alive))
                (any_reply-answer (stock_of k.id) (pool_of k.id)
                  (ThreadPool.get_status (pool_of k.id))),
      )

  process-answered :
      (ds : List KitchenHandle) (k : KitchenHandle) (ks : List KitchenHandle) (shared : Shared S)
      → All (IsOther k.id) ds
      → IsIdle k
      → IsBuiltIn shared.registry
      → (shared' : Shared S) × IsBuiltIn shared'.registry
        × (process_pending_kitchen done_cb k.id (ds ++ (ready k ∷ ks)) shared
            ≡ returned ((ds ++ (answered k ∷ ks), shared'), true))
  unfolding process_pending_kitchen
  process-answered [] k ks shared h idle built =
      let (shared', built', e) = process_found-answered k ks shared idle built in
      (shared', built', if_true (k.id == k.id) _ _ ((==_iff k.id k.id).1 refl) ∙ e)
  process-answered (d ∷ ds) k ks shared h idle built =
      let (shared', built', e) = process-answered ds k ks shared h.1 idle built in
      (shared', built', if_false (d.id == k.id) _ _ h.0 ∙ ap (cons_processed done_cb d) e)

  poll_round-answered :
      (lo hi : ℕ) (ds ks : List KitchenHandle) (shared : Shared S)
      → All (IsBelow lo) ds
      → Ascending lo ks hi
      → All IsIdle ks
      → IsBuiltIn shared.registry
      → (shared' : Shared S) × (poll_round done_cb (map (λ k. k.id) ks) (ds ++ map ready ks, shared)
          ≡ returned ((ds ++ map answered ks, shared'), []))
  unfolding poll_round
  poll_round-answered lo hi ds [] shared b a idle built = (shared, refl)
  poll_round-answered lo hi ds (k ∷ ks) shared b a idle built =
      let (shared₁, built₁, e) =
        process-answered ds k (map ready ks) shared (IsBelow-IsOther lo k.id ds a.0 b) idle.0
          built in
      let front =
        All-append (IsBelow (suc k.id)) ds (answered k ∷ [])
          (IsBelow-raised lo (suc k.id) ds (omega (arith, a.0)) b) (omega arith, tt) in
      let (shared₂, f) =
        poll_round-answered (suc k.id) hi (ds ++ (answered k ∷ [])) ks shared₁ front a.1 idle.1
          built₁ in
      let ids = map (λ j. j.id) ks in
      let here = answered k ∷ [] in
      (
        shared₂,
        ap (after_kitchen done_cb k.id (poll_round done_cb ids)) e
            ∙ ap (λ l. keep_id done_cb true k.id (poll_round done_cb ids (l, shared₁)))
                (sym (append_assoc ds here (map ready ks)))
            ∙ ap (keep_id done_cb true k.id) f
            ∙ ap (λ l. returned ((l, shared₂), [])) (append_assoc ds here (map answered ks)),
      )

  -- What the user is to be told of a kitchen.
  abbrev pub status_of : KitchenHandle → KitchenStatus
  status_of k = (answered k).status

  statuses-answered :
      (ks : List KitchenHandle) → All IsIdle ks → statuses (map answered ks) ≡ map status_of ks
  unfolding statuses
  statuses-answered [] h = refl
  statuses-answered (k ∷ ks) h =
      if_true k.alive _ _ h.0.is_alive ∙ ap (λ l. status_of k ∷ l) (statuses-answered ks h.1)

  poll-none :
      (fuel : ℕ) (arrivals : ℕ → ℕ → List Packet) (state : State S)
      → poll done_cb fuel arrivals [] state ≡ some (returned state)
  unfolding poll
  poll-none zero arrivals state = refl
  poll-none (suc fuel) arrivals state = refl

  poll-answered :
      (fuel : ℕ) (arrivals : ℕ → ℕ → List Packet) (hi : ℕ) (ks : List KitchenHandle)
      (shared : Shared S)
      → arrivals zero ≡ answer_of
      → Ascending 0 ks hi
      → All IsIdle ks
      → IsBuiltIn shared.registry
      → (shared' : Shared S) × (poll done_cb
            (suc fuel)
            arrivals
            (map (λ k. k.id) ks)
            (map asked ks, shared)
          ≡ some (returned (map answered ks, shared')))
  unfolding poll
  poll-answered fuel arrivals hi [] shared first a idle built = (shared, refl)
  poll-answered fuel arrivals hi (k ∷ ks) shared first a idle built =
      let (shared', e) = poll_round-answered 0 hi [] (k ∷ ks) shared tt a idle built in
      let rest = poll done_cb fuel (λ round. arrivals (suc round)) in
      let ids = map (λ j. j.id) (k ∷ ks) in
      (
        shared',
        ap (λ l. after_round done_cb rest (poll_round done_cb ids (l, shared)))
              (ap (λ f. arrive f (map asked (k ∷ ks))) first ∙ arrive-ready (k ∷ ks))
            ∙ ap (after_round done_cb rest) e
            ∙ poll-none fuel (λ round. arrivals (suc round)) (map answered (k ∷ ks), shared'),
      )

  -- The statuses are those that the handles have once the answers have come in.
  pub get_status-answered :
      (fuel : ℕ) (arrivals : ℕ → ℕ → List Packet) (lb : LoadBalancer S)
      → arrivals zero ≡ answer_of
      → IsValid lb
      → All IsIdle lb.kitchens
      → IsBuiltIn lb.shared.registry
      → (lb' : LoadBalancer S) × (get_status done_cb os (suc fuel) arrivals lb
          ≡ some (returned (lb', map status_of lb.kitchens)))
  unfolding get_status
  get_status-answered fuel arrivals lb first v idle built =
      let (shared', e) =
        poll-answered fuel arrivals lb.next_kitchen_id lb.kitchens lb.shared first v.numbered idle
          built in
      let after : LoadBalancer S = record lb {
        kitchens = map answered lb.kitchens;
        shared = shared';
      } in
      (
        after,
        ap (after_requests done_cb (poll done_cb (suc fuel) arrivals) lb)
              (request_status_for_all-asked lb.kitchens idle)
            ∙ ap (after_polling done_cb lb) e
            ∙ ap (λ l. some (returned (after, l))) (statuses-answered lb.kitchens idle),
      )
