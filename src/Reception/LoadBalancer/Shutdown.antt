-- ===== src/Reception/LoadBalancer/Shutdown.antt =====
-- `LoadBalancer::shutdown`, which the destructor calls.
use plazza.Prelude.{
  ℕ, ◌≡◌, refl, true, false, List, [], ◌∷◌, ◌++◌, Option, none, some, Bool, if◌then◌else◌,
}
use plazza.Ipc.{Packet, zero_packet}
use plazza.Ipc.MessageType
use plazza.Reception.{KitchenHandle, Outcome, returned, threw}
use plazza.Reception.LoadBalancer.{LoadBalancer, Os, append_order}
use plazza.Reception.LoadBalancer.Outcomes.{Returns}

abbrev pub shutdown_packet : Packet
shutdown_packet = record zero_packet { type = MessageType.shutdown }

-- `send`, `wait` and `alive = false`: `wait` returns when the process has ended.
abbrev pub closed_handle : KitchenHandle → KitchenHandle
closed_handle kitchen = record (append_order shutdown_packet kitchen) {
  alive = false;
  waited = true;
}

module _ (os : Os) where
  unfoldable pub close_handle : KitchenHandle → Outcome KitchenHandle
  close_handle kitchen =
      if kitchen.alive
      then elim (os.send_error kitchen shutdown_packet) [
        | some e ↦ threw e kitchen
        | none ↦ returned (closed_handle kitchen)
      ]
      else returned kitchen

  -- The loop goes on to the other kitchens unless an exception left the first.
  unfoldable pub after_close :
      List KitchenHandle
      → Outcome (List KitchenHandle)
      → Outcome KitchenHandle
      → Outcome (List KitchenHandle)
  after_close others rest (threw e kitchen) = threw e (kitchen ∷ others)
  after_close others (threw e kitchens) (returned kitchen) = threw e (kitchen ∷ kitchens)
  after_close others (returned kitchens) (returned kitchen) = returned (kitchen ∷ kitchens)

  unfoldable pub close_handles : List KitchenHandle → Outcome (List KitchenHandle)
  unfolding close_handle after_close
  close_handles [] = returned []
  close_handles (kitchen ∷ kitchens) =
      let rest = close_handles kitchens in after_close kitchens rest (close_handle kitchen)

  unfoldable pub shutdown : {S : Type 0} → LoadBalancer S → Outcome (LoadBalancer S)
  unfolding close_handles
  shutdown lb = elim (close_handles lb.kitchens) [
    | threw e kitchens ↦ threw e (record lb { kitchens = kitchens })
    | returned kitchens ↦ returned (record lb { kitchens = kitchens })
  ]

-- `after` is what the shutdown leaves of the handle `before`: a kitchen that was alive has been
-- told to end, as the last thing it is told, and has been waited for; a dead one is left alone.
pub data IsOver (before : KitchenHandle) : KitchenHandle → Type 0 where
  told :
      {after : KitchenHandle}
      → before.alive ≡ true
      → after.order_queue ≡ before.order_queue ++ (shutdown_packet ∷ [])
      → after.waited ≡ true
      → after.alive ≡ false
      → IsOver before after
  left_alone : before.alive ≡ false → IsOver before before

abbrev pub AllOver : List KitchenHandle → List KitchenHandle → Type 0
AllOver [] [] = Unit {0}
AllOver [] (k' ∷ ks') = ⊥
AllOver (k ∷ ks) [] = ⊥
AllOver (k ∷ ks) (k' ∷ ks') = IsOver k k' × AllOver ks ks'

module _ (os : Os) (fine : (k : KitchenHandle) (p : Packet) → os.send_error k p ≡ none) where
  close_alive :
      (k : KitchenHandle) (sent : Option (List ℕ))
      → sent ≡ none
      → k.alive ≡ true
      → Returns (IsOver k) (elim sent [ some e ↦ threw e k | none ↦ returned (closed_handle k) ])
  close_alive k none e h = told h refl refl refl
  close_alive k (some x) e h = absurd (cc)

  close_if :
      (k : KitchenHandle) (b : Bool)
      → k.alive ≡ b
      → Returns (IsOver k) (
          if b
          then elim (os.send_error k shutdown_packet) [
            | some e ↦ threw e k
            | none ↦ returned (closed_handle k)
          ]
          else returned k)
  close_if k true e = close_alive k (os.send_error k shutdown_packet) (fine k shutdown_packet) e
  close_if k false e = left_alone e

  close_handle-IsOver : (k : KitchenHandle) → Returns (IsOver k) (close_handle os k)
  unfolding close_handle
  close_handle-IsOver k = close_if k k.alive refl

  after_close-AllOver :
      (k : KitchenHandle) (ks : List KitchenHandle) (m : Outcome KitchenHandle)
      (rest : Outcome (List KitchenHandle))
      → Returns (IsOver k) m
      → Returns (AllOver ks) rest
      → Returns (AllOver (k ∷ ks)) (after_close os ks rest m)
  unfolding after_close
  after_close-AllOver k ks (threw e a) rest h r = absurd h
  after_close-AllOver k ks (returned a) (threw e b) h r = absurd r
  after_close-AllOver k ks (returned a) (returned b) h r = (h, r)

  close_handles-AllOver : (ks : List KitchenHandle) → Returns (AllOver ks) (close_handles os ks)
  unfolding close_handles
  close_handles-AllOver [] = tt
  close_handles-AllOver (k ∷ ks) =
      after_close-AllOver k ks (close_handle os k) (close_handles os ks) (close_handle-IsOver k)
        (close_handles-AllOver ks)

  finish-AllOver :
      {S : Type 0} (lb : LoadBalancer S) (m : Outcome (List KitchenHandle))
      → close_handles os lb.kitchens ≡ m
      → Returns (AllOver lb.kitchens) m
      → Returns (λ b. AllOver lb.kitchens b.kitchens) (shutdown os lb)
  unfolding shutdown
  finish-AllOver lb (returned ks) e h = rw (e, shutdown) h
  finish-AllOver lb (threw x ks) e h = absurd h

  -- Where every packet can be sent, the shutdown returns and leaves no kitchen alive: each kitchen
  -- that was alive has been told to end, after everything it was told before, and waited for, and
  -- the handles of the others are as they were.
  pub shutdown-AllOver :
      {S : Type 0} (lb : LoadBalancer S)
      → Returns (λ b. AllOver lb.kitchens b.kitchens) (shutdown os lb)
  shutdown-AllOver lb =
      finish-AllOver lb (close_handles os lb.kitchens) refl (close_handles-AllOver lb.kitchens)
