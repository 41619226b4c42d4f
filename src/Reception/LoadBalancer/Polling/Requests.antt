-- ===== src/Reception/LoadBalancer/Polling/Requests.antt =====
-- What `requestStatusForAll` and an arrival leave of the kitchens.
use plazza.Prelude.{ℕ, ◌≡◌, refl, ◌∙◌, List, [], ◌∷◌, Option, none, some, All, arith, if_both}
use plazza.Ipc.{Packet}
use plazza.Reception.{KitchenHandle, Outcome, returned, threw, state_of}
use plazza.Reception.LoadBalancer.{LoadBalancer, Os}
use plazza.Reception.LoadBalancer.Kitchens.{Ascending}
use plazza.Reception.LoadBalancer.Receiving.{KeepsAll}
use plazza.Reception.LoadBalancer.Validity.{IsValid, IsBounded}
use plazza.Reception.LoadBalancer.Polling.{
  Requested, request_packet, ask, request_status, after_request, cons_passed,
  request_status_for_all, arrive,
}

pub arrive-KeepsAll :
    (packets : ℕ → List Packet) (ks : List KitchenHandle) → KeepsAll ks (arrive packets ks)
unfolding arrive
arrive-KeepsAll packets [] = tt
arrive-KeepsAll packets (k ∷ ks) = (
  record { same_id = refl; same_capacity = refl; same_orders = refl; no_more = omega arith },
  arrive-KeepsAll packets ks,
)

-- A request changes what has been sent to a kitchen, and nothing that the invariant reads.
pub record SameLoad (k k' : KitchenHandle) : Type 0 where
  pub same_id : k'.id ≡ k.id
  pub same_load : k'.load ≡ k.load
  pub same_capacity : k'.capacity ≡ k.capacity

SameLoad-refl : (k : KitchenHandle) → SameLoad k k
SameLoad-refl k = record { same_id = refl; same_load = refl; same_capacity = refl }

-- All kitchens but their orders are the same.
pub SameLoads : List KitchenHandle → List KitchenHandle → Type 0
SameLoads [] [] = Unit
SameLoads [] (k' ∷ ks') = ⊥
SameLoads (k ∷ ks) [] = ⊥
SameLoads (k ∷ ks) (k' ∷ ks') = SameLoad k k' × SameLoads ks ks'

SameLoads-refl : (ks : List KitchenHandle) → SameLoads ks ks
unfolding SameLoads
SameLoads-refl [] = tt
SameLoads-refl (k ∷ ks) = (SameLoad-refl k, SameLoads-refl ks)

SameLoads-IsBounded :
    (n : ℕ) (ks ks' : List KitchenHandle)
    → SameLoads ks ks'
    → All (IsBounded n) ks
    → All (IsBounded n) ks'
unfolding SameLoads
SameLoads-IsBounded n [] [] h b = tt
SameLoads-IsBounded n [] (k' ∷ ks') h b = absurd h
SameLoads-IsBounded n (k ∷ ks) [] h b = absurd h
SameLoads-IsBounded n (k ∷ ks) (k' ∷ ks') h b = (
  (omega (arith, h.0.same_load, h.0.same_capacity, b.0.0), h.0.same_capacity ∙ b.0.1),
  SameLoads-IsBounded n ks ks' h.1 b.1,
)

SameLoads-Ascending :
    (lo hi : ℕ) (ks ks' : List KitchenHandle)
    → SameLoads ks ks'
    → Ascending lo ks hi
    → Ascending lo ks' hi
unfolding SameLoads
SameLoads-Ascending lo hi [] [] h a = a
SameLoads-Ascending lo hi [] (k' ∷ ks') h a = absurd h
SameLoads-Ascending lo hi (k ∷ ks) [] h a = absurd h
SameLoads-Ascending lo hi (k ∷ ks) (k' ∷ ks') h a =
    rw h.0.same_id (a.0, SameLoads-Ascending _ hi ks ks' h.1 a.1)

module _ (os : Os) where
  ask-SameLoad : (o : Option (List ℕ)) (k : KitchenHandle) → SameLoad k (state_of (ask o k))
  ask-SameLoad none k = record { same_id = refl; same_load = refl; same_capacity = refl }
  ask-SameLoad (some e) k = SameLoad-refl k

  request_status-SameLoad : (k : KitchenHandle) → SameLoad k (state_of (request_status os k))
  unfolding request_status
  request_status-SameLoad k =
      let same = ask-SameLoad (os.send_error _ request_packet) (record k { pending_cooks = [] }) in
      record {
        same_id = same.same_id;
        same_load = same.same_load;
        same_capacity = same.same_capacity;
      }

  after_request-SameLoads :
      (k : KitchenHandle) (ks : List KitchenHandle) (rest : Outcome Requested)
      (m : Outcome KitchenHandle)
      → SameLoad k (state_of m)
      → SameLoads ks (state_of rest).0
      → SameLoads (k ∷ ks) (state_of (after_request os ks rest m)).0
  unfolding SameLoads
  after_request-SameLoads k ks rest (threw e k') h r = (h, SameLoads-refl ks)
  after_request-SameLoads k ks (threw e p) (returned k') h r = (h, r)
  after_request-SameLoads k ks (returned p) (returned k') h r = (h, r)

  cons_passed-SameLoads :
      (k : KitchenHandle) (ks : List KitchenHandle) (rest : Outcome Requested)
      → SameLoads ks (state_of rest).0
      → SameLoads (k ∷ ks) (state_of (cons_passed os k rest)).0
  unfolding SameLoads
  cons_passed-SameLoads k ks (threw e p) r = (SameLoad-refl k, r)
  cons_passed-SameLoads k ks (returned p) r = (SameLoad-refl k, r)

  pub request_status_for_all-SameLoads :
      (ks : List KitchenHandle) → SameLoads ks (state_of (request_status_for_all os ks)).0
  unfolding request_status_for_all SameLoads
  request_status_for_all-SameLoads [] = tt
  request_status_for_all-SameLoads (k ∷ ks) =
      let rest = request_status_for_all-SameLoads ks in
      if_both (λ m. SameLoads (k ∷ ks) (state_of {A = Requested} m).0) k.alive _ _
        (after_request-SameLoads k ks (request_status_for_all os ks) (request_status os k)
          (request_status-SameLoad k) rest)
        (cons_passed-SameLoads k ks (request_status_for_all os ks) rest)

  pub requested-IsValid :
      {S : Type 0} (lb : LoadBalancer S) (ks : List KitchenHandle)
      → SameLoads lb.kitchens ks
      → IsValid lb
      → IsValid (record lb { kitchens = ks })
  requested-IsValid lb ks h v = record {
    bounded = SameLoads-IsBounded lb.n_cooks lb.kitchens ks h v.bounded;
    numbered = SameLoads-Ascending 0 lb.next_kitchen_id lb.kitchens ks h v.numbered;
    some_room = v.some_room;
  }
