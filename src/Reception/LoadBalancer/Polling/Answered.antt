-- ===== src/Reception/LoadBalancer/Polling/Answered.antt =====
-- When a kitchen counts as answered, and that processing it erases its number and touches no other.
use plazza.Prelude.{
  ℕ, ◌≡◌, refl, ap, sym, ◌∙◌, inl, inr, Bool, true, false, not, ◌||◌, List, [], ◌∷◌, ◌++◌,
  Bool-cases, if_both, ◌==◌, ==_iff, if◌then◌else◌, arith,
}
use plazza.Ipc.{Packet}
use plazza.Ipc.MessageType
use plazza.Reception.{
  KitchenHandle, Shared, Outcome, returned, threw, DoneCallback, handle_packet, state_of,
  handle_shutdown_packet,
}
use plazza.Reception.LoadBalancer.{drain}
use plazza.Reception.LoadBalancer.Outcomes.{bind-keeps, OnReturn, state_of-OnReturn, bind-OnReturn}
use plazza.Reception.LoadBalancer.Receiving.{drain-Keeps}
use plazza.Reception.LoadBalancer.Polling.{
  any_reply, Processed, after_packets, process_found, cons_processed, process_pending_kitchen,
  arrive,
}

-- An answer, or the announcement that the kitchen has ended.
abbrev pub is_settling : Packet → Bool
is_settling packet =
    (packet.type == MessageType.status_reply) || (packet.type == MessageType.shutdown)

abbrev pub any_shutdown : List Packet → Bool
any_shutdown [] = false
any_shutdown (packet ∷ packets) = (packet.type == MessageType.shutdown) || any_shutdown packets

abbrev pub settles : List Packet → Bool
settles [] = false
settles (packet ∷ packets) = is_settling packet || settles packets

-- There is no such kitchen, or it is dead, or what settles it stands in its queue.
abbrev pub answered : ℕ → List KitchenHandle → Bool
answered id [] = true
answered id (k ∷ ks) = if k.id == id then not k.alive || settles k.result_queue else answered id ks

settles-either :
    (packets : List Packet) → settles packets ≡ any_reply packets || any_shutdown packets
unfolding any_reply
settles-either [] = refl
settles-either (packet ∷ packets) = ground (arith, settles-either packets)

pub settles-append : (xs ys : List Packet) → settles ys ≡ true → settles (xs ++ ys) ≡ true
settles-append [] ys h = h
settles-append (x ∷ xs) ys h = ground (arith, settles-append xs ys h)

pub answered-arrive :
    (arrived : ℕ → List Packet) (id : ℕ) (ks : List KitchenHandle)
    → settles (arrived id) ≡ true
    → answered id (arrive arrived ks) ≡ true
unfolding arrive
answered-arrive arrived id [] h = refl
answered-arrive arrived id (k ∷ ks) h = elim (Bool-cases (k.id == id)) [
  | inl e ↦
      let here : settles (arrived k.id) ≡ true =
        ap (λ i. settles (arrived i)) ((==_iff k.id id).0 e) ∙ h in
      rw (e, settles-append k.result_queue (arrived k.id) here) (ground arith)
  | inr e ↦ rw e (answered-arrive arrived id ks h)
]

module _ {S : Type 0} (done_cb : DoneCallback S) where
  handle_packet-dead :
      (k : KitchenHandle) (packet : Packet) (shared : Shared S)
      → k.alive ≡ false
      → (state_of (handle_packet done_cb k packet shared)).0.alive ≡ false
  unfolding handle_packet
  handle_packet-dead k packet shared h = ground arith

  handle_packet-shutdown :
      (k : KitchenHandle) (packet : Packet) (shared : Shared S)
      → (packet.type == MessageType.shutdown) ≡ true
      → (state_of (handle_packet done_cb k packet shared)).0.alive ≡ false
  unfolding handle_packet handle_shutdown_packet
  handle_packet-shutdown k packet shared h = ground arith

  drain-dead :
      (packets : List Packet) (k : KitchenHandle) (shared : Shared S)
      → k.alive ≡ false
      → (state_of (drain done_cb packets k shared)).0.alive ≡ false
  unfolding drain
  drain-dead [] k shared h = h
  drain-dead (packet ∷ packets) k shared h =
      bind-keeps (λ a. a.0.alive ≡ false)
        (handle_packet done_cb (record k { result_queue = packets }) packet shared)
        (λ (j, s). drain done_cb packets j s)
        (handle_packet-dead (record k { result_queue = packets }) packet shared h)
        (λ a i. drain-dead packets a.0 a.1 i)

  -- The announcement of the end is seen, unless an exception comes first.
  drain-shutdown :
      (packets : List Packet) (k : KitchenHandle) (shared : Shared S)
      → any_shutdown packets ≡ true
      → OnReturn (λ a. a.0.alive ≡ false) (drain done_cb packets k shared)
  unfolding drain
  drain-shutdown [] k shared h = absurd (cc)
  drain-shutdown (packet ∷ packets) k shared h =
      let here : KitchenHandle = record k { result_queue = packets } in
      let rest = λ (a : KitchenHandle × Shared S). drain done_cb packets a.0 a.1 in
      elim (Bool-cases (packet.type == MessageType.shutdown)) [
        | inl e ↦
            bind-OnReturn (λ a. a.0.alive ≡ false) (λ a. a.0.alive ≡ false)
              (handle_packet done_cb here packet shared) rest
              (handle_packet-shutdown here packet shared e)
              (λ a i.
                state_of-OnReturn (λ b. b.0.alive ≡ false) (rest a) (drain-dead packets a.0 a.1 i))
        | inr e ↦
            bind-OnReturn (λ a. a.0.alive ≡ false) (λ a. Unit {0})
              (handle_packet done_cb here packet shared) rest tt
              (λ a i. drain-shutdown packets a.0 a.1 (ground arith))
      ]

  -- A kitchen that counts as answered is erased from those pending.
  abbrev pub Erases : Processed S → Type 0
  Erases p = p.1 ≡ true

  after_packets-Erases :
      (ks : List KitchenHandle) (got dead : Bool) (m : Outcome (KitchenHandle × Shared S))
      → (got || dead) ≡ true
      → (dead ≡ true → OnReturn (λ a. a.0.alive ≡ false) m)
      → OnReturn Erases (after_packets done_cb ks got m)
  after_packets-Erases ks true dead (returned a) h d = refl
  after_packets-Erases ks false dead (returned a) h d = let gone = d h in rw gone refl
  after_packets-Erases ks got dead (threw e a) h d = tt

  process_if-Erases :
      (alive : Bool) (k : KitchenHandle) (ks : List KitchenHandle) (shared : Shared S)
      → (not alive || settles k.result_queue) ≡ true
      → OnReturn Erases (
          if not alive
          then returned ((k ∷ ks, shared), true)
          else after_packets done_cb ks
              (any_reply k.result_queue)
              (drain done_cb k.result_queue k shared))
  process_if-Erases true k ks shared h =
      after_packets-Erases ks (any_reply k.result_queue) (any_shutdown k.result_queue)
        (drain done_cb k.result_queue k shared) (sym (settles-either k.result_queue) ∙ h)
        (drain-shutdown k.result_queue k shared)
  process_if-Erases false k ks shared h = refl

  process_found-Erases :
      (k : KitchenHandle) (ks : List KitchenHandle) (shared : Shared S)
      → (not k.alive || settles k.result_queue) ≡ true
      → OnReturn Erases (process_found done_cb k ks shared)
  unfolding process_found
  process_found-Erases k ks shared h = process_if-Erases k.alive k ks shared h

  cons_processed-Erases :
      (k : KitchenHandle) (m : Outcome (Processed S))
      → OnReturn Erases m
      → OnReturn Erases (cons_processed done_cb k m)
  cons_processed-Erases k (returned p) h = h
  cons_processed-Erases k (threw e p) h = tt

  pub process_pending_kitchen-Erases :
      (id : ℕ) (ks : List KitchenHandle) (shared : Shared S)
      → answered id ks ≡ true
      → OnReturn Erases (process_pending_kitchen done_cb id ks shared)
  unfolding process_pending_kitchen
  process_pending_kitchen-Erases id [] shared h = refl
  process_pending_kitchen-Erases id (k ∷ ks) shared h = elim (Bool-cases (k.id == id)) [
    | inl e ↦ rw e (process_found-Erases k ks shared (rw e at h))
    | inr e ↦ rw e (
        cons_processed-Erases k (process_pending_kitchen done_cb id ks shared)
          (process_pending_kitchen-Erases id ks shared (rw e at h)))
  ]

  -- The other kitchens count as answered as before.
  abbrev pub Spares : ℕ → List KitchenHandle → Processed S → Type 0
  Spares id ks p = answered id p.0.0 ≡ answered id ks

  cons_processed-Spares :
      (id : ℕ) (k : KitchenHandle) (ks : List KitchenHandle) (m : Outcome (Processed S))
      → OnReturn (Spares id ks) m
      → OnReturn (Spares id (k ∷ ks)) (cons_processed done_cb k m)
  cons_processed-Spares id k ks (returned p) h = rw h refl
  cons_processed-Spares id k ks (threw e p) h = tt

  after_packets-Spares :
      (id : ℕ) (k : KitchenHandle) (ks : List KitchenHandle) (got : Bool)
      (m : Outcome (KitchenHandle × Shared S))
      → (k.id == id) ≡ false
      → (state_of m).0.id ≡ k.id
      → OnReturn (Spares id (k ∷ ks)) (after_packets done_cb ks got m)
  after_packets-Spares id k ks got (returned a) e same = rw (same, e) refl
  after_packets-Spares id k ks got (threw x a) e same = tt

  process_found-Spares :
      (id : ℕ) (k : KitchenHandle) (ks : List KitchenHandle) (shared : Shared S)
      → (k.id == id) ≡ false
      → OnReturn (Spares id (k ∷ ks)) (process_found done_cb k ks shared)
  unfolding process_found
  process_found-Spares id k ks shared e =
      if_both (OnReturn (Spares id (k ∷ ks))) (not k.alive) _ _ refl (
        after_packets-Spares id k ks (any_reply k.result_queue)
          (drain done_cb k.result_queue k shared) e
          (drain-Keeps done_cb k.result_queue k shared).same_id)

  pub process_pending_kitchen-Spares :
      (id other : ℕ) (ks : List KitchenHandle) (shared : Shared S)
      → (id == other) ≡ false
      → OnReturn (Spares other ks) (process_pending_kitchen done_cb id ks shared)
  unfolding process_pending_kitchen
  process_pending_kitchen-Spares id other [] shared h = refl
  process_pending_kitchen-Spares id other (k ∷ ks) shared h = elim (Bool-cases (k.id == id)) [
    | inl e ↦ rw e (process_found-Spares other k ks shared (ground arith))
    | inr e ↦ rw e (
        cons_processed-Spares other k ks (process_pending_kitchen done_cb id ks shared)
          (process_pending_kitchen-Spares id other ks shared h))
  ]
