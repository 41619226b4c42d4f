-- ===== src/Reception/LoadBalancer/Receiving.antt =====
-- What handling packets can do to a handle and to the vector of handles.
use plazza.Prelude.{ℕ, ◌≤◌, ◌≡◌, refl, ◌∙◌, List, [], ◌∷◌, arith, All, if_both}
use plazza.Ipc.{Packet}
use plazza.Reception.{
  KitchenHandle, Shared, DoneCallback, Outcome, returned, threw, state_of, handle_packet,
}
use plazza.Reception.LoadBalancer.{drain, drain_alive, cons_visited, after_drain, visit}
use plazza.Reception.LoadBalancer.Outcomes.{bind-keeps}
use plazza.Reception.LoadBalancer.Kitchens.{Ascending}

-- No packet raises a load or touches a number, a capacity or what has been sent.
pub record Keeps (k k' : KitchenHandle) : Type 0 where
  pub same_id : k'.id ≡ k.id
  pub same_capacity : k'.capacity ≡ k.capacity
  pub same_orders : k'.order_queue ≡ k.order_queue
  pub no_more : k'.load ≤ k.load

Keeps-refl : (k : KitchenHandle) → Keeps k k
Keeps-refl k = record {
  same_id = refl;
  same_capacity = refl;
  same_orders = refl;
  no_more = omega arith;
}

Keeps-trans : (k j l : KitchenHandle) → Keeps k j → Keeps j l → Keeps k l
Keeps-trans k j l a b = record {
  same_id = b.same_id ∙ a.same_id;
  same_capacity = b.same_capacity ∙ a.same_capacity;
  same_orders = b.same_orders ∙ a.same_orders;
  no_more = omega (arith, a.no_more, b.no_more);
}

abbrev pub KeepsAll : List KitchenHandle → List KitchenHandle → Type 0
KeepsAll [] [] = Unit {0}
KeepsAll [] (k ∷ ks) = ⊥
KeepsAll (k ∷ ks) [] = ⊥
KeepsAll (k ∷ ks) (k' ∷ ks') = Keeps k k' × KeepsAll ks ks'

module _ {S : Type 0} (done_cb : DoneCallback S) where
  handle_packet-Keeps :
      (k : KitchenHandle) (packets : List Packet) (packet : Packet) (shared : Shared S)
      → Keeps k
          (state_of (handle_packet done_cb (record k { result_queue = packets }) packet shared)).0
  unfolding handle_packet
  handle_packet-Keeps k packets packet shared = ground arith

  pub drain-Keeps :
      (packets : List Packet) (k : KitchenHandle) (shared : Shared S)
      → Keeps k (state_of (drain done_cb packets k shared)).0
  unfolding drain
  drain-Keeps [] k shared = Keeps-refl k
  drain-Keeps (packet ∷ packets) k shared =
      bind-keeps (λ a. Keeps k a.0)
        (handle_packet done_cb (record k { result_queue = packets }) packet shared)
        (λ (j, s). drain done_cb packets j s) (handle_packet-Keeps k packets packet shared)
        (λ a h. Keeps-trans k a.0 _ h (drain-Keeps packets a.0 a.1))

  drain_alive-Keeps :
      (k : KitchenHandle) (shared : Shared S) → Keeps k (state_of (drain_alive done_cb k shared)).0
  unfolding drain_alive
  drain_alive-Keeps k shared =
      if_both (λ m. Keeps k (state_of {A = KitchenHandle × Shared S} m).0) k.alive
        (drain done_cb k.result_queue k shared) (returned (k, shared))
        (drain-Keeps k.result_queue k shared) (Keeps-refl k)

  pub KeepsAll-refl : (ks : List KitchenHandle) → KeepsAll ks ks
  KeepsAll-refl [] = tt
  KeepsAll-refl (k ∷ ks) = (Keeps-refl k, KeepsAll-refl ks)

  cons_visited-KeepsAll :
      (k k' : KitchenHandle) (ks : List KitchenHandle) (m : Outcome (List KitchenHandle × Shared S))
      → Keeps k k'
      → KeepsAll ks (state_of m).0
      → KeepsAll (k ∷ ks) (state_of (cons_visited done_cb k' m)).0
  unfolding cons_visited
  cons_visited-KeepsAll k k' ks (returned a) h r = (h, r)
  cons_visited-KeepsAll k k' ks (threw e a) h r = (h, r)

  after_drain-KeepsAll :
      (k : KitchenHandle) (ks : List KitchenHandle)
      (rest : Shared S → Outcome (List KitchenHandle × Shared S))
      (m : Outcome (KitchenHandle × Shared S))
      → Keeps k (state_of m).0
      → ((s : Shared S) → KeepsAll ks (state_of (rest s)).0)
      → KeepsAll (k ∷ ks) (state_of (after_drain done_cb ks rest m)).0
  unfolding after_drain
  after_drain-KeepsAll k ks rest (returned a) h r =
      cons_visited-KeepsAll k a.0 ks (rest a.1) h (r a.1)
  after_drain-KeepsAll k ks rest (threw e a) h r = (h, KeepsAll-refl ks)

  pub visit-KeepsAll :
      (ks : List KitchenHandle) (shared : Shared S)
      → KeepsAll ks (state_of (visit done_cb ks shared)).0
  unfolding visit
  visit-KeepsAll [] shared = tt
  visit-KeepsAll (k ∷ ks) shared =
      after_drain-KeepsAll k ks (visit done_cb ks) (drain_alive done_cb k shared)
        (drain_alive-Keeps k shared) (visit-KeepsAll ks)

pub KeepsAll-Ascending :
    (lo hi : ℕ) (ks ks' : List KitchenHandle)
    → KeepsAll ks ks'
    → Ascending lo ks hi
    → Ascending lo ks' hi
KeepsAll-Ascending lo hi [] [] r h = h
KeepsAll-Ascending lo hi [] (k ∷ ks) r h = absurd r
KeepsAll-Ascending lo hi (k ∷ ks) [] r h = absurd r
KeepsAll-Ascending lo hi (k ∷ ks) (k' ∷ ks') r h =
    rw r.0.same_id (h.0, KeepsAll-Ascending _ hi ks ks' r.1 h.1)

pub KeepsAll-All {κ} :
    (P : KitchenHandle → Type κ)
    → ((k k' : KitchenHandle) → Keeps k k' → P k → P k')
    → (ks ks' : List KitchenHandle) → KeepsAll ks ks'
    → All P ks
    → All P ks'
KeepsAll-All P keep [] [] r h = tt
KeepsAll-All P keep [] (k ∷ ks) r h = absurd r
KeepsAll-All P keep (k ∷ ks) [] r h = absurd r
KeepsAll-All P keep (k ∷ ks) (k' ∷ ks') r h =
    (keep k k' r.0 h.0, KeepsAll-All P keep ks ks' r.1 h.1)
