-- ===== src/Reception/LoadBalancer/Opening.antt =====
-- When kitchens are started.
use plazza.Prelude.{
  ℕ, zero, suc, ◌≤◌, ◌≡◌, refl, inl, inr, false, List, [], ◌∷◌, ◌++◌, arith, if◌then◌else◌,
  Bool-cases,
}
use plazza.Ipc.{Packet}
use plazza.Pizza.{PizzaOrder}
use plazza.Reception.{KitchenHandle, Outcome, state_of}
use plazza.Reception.LoadBalancer.{
  LoadBalancer, Os, has_room, update_at, new_handle, accept_pizza, pizza_packet, place_orders,
}
use plazza.Reception.LoadBalancer.Kitchens.{total, total-append}
use plazza.Reception.LoadBalancer.Placing.{
  IsSaturated, Placed, sent, opened, not_sent, not_started, not_sent_to_new, place_pizza-Placed,
  place_orders-keeps,
}

-- The kitchens that could take one more pizza.
abbrev pub with_room : List KitchenHandle → ℕ
with_room = total (λ k. if has_room k then 1 else 0)

with_room-saturated : (ks : List KitchenHandle) → IsSaturated ks → with_room ks ≡ 0
with_room-saturated [] h = refl
with_room-saturated (k ∷ ks) h = ground (arith, with_room-saturated ks h.1, h.0)

accept-no_room :
    (p : Packet) (k : KitchenHandle) → has_room k ≡ false → has_room (accept_pizza p k) ≡ false
unfolding has_room
accept-no_room p k h = ground arith

with_room-accept :
    (p : Packet) (i : ℕ) (ks : List KitchenHandle)
    → with_room (update_at i (accept_pizza p) ks) ≤ with_room ks
unfolding update_at
with_room-accept p i [] = omega arith
with_room-accept p zero (k ∷ ks) = elim (Bool-cases (has_room k)) [
  | inl e ↦ ground arith
  | inr e ↦ rw (e, accept-no_room p k e) (omega arith)
]
with_room-accept p (suc i) (k ∷ ks) = omega (arith, with_room-accept p i ks)

opened-with_room :
    (ks : List KitchenHandle) (k : KitchenHandle) → IsSaturated ks → with_room (ks ++ (k ∷ [])) ≤ 1
opened-with_room ks k full = ground (
  arith,
  total-append (λ j. if has_room j then 1 else 0) ks (k ∷ []),
  with_room-saturated ks full,
)

module _ {S : Type 0} {os : Os} {order : PizzaOrder} {lb : LoadBalancer S} where
  Placed-with_room :
      {o : Outcome (LoadBalancer S)} (n : ℕ)
      → Placed os order lb o
      → with_room lb.kitchens ≤ suc n
      → with_room (state_of o).kitchens ≤ suc n
  Placed-with_room n (sent i load least accepted) h =
      omega (arith, with_room-accept (pizza_packet order) i lb.kitchens)
  Placed-with_room n (opened full started accepted) h = omega (
    arith,
    opened-with_room lb.kitchens
        (accept_pizza (pizza_packet order) (new_handle lb.next_kitchen_id lb.n_cooks)) full,
  )
  Placed-with_room n (not_sent e i load least bad) h = h
  Placed-with_room n (not_started e full bad) h = h
  Placed-with_room n (not_sent_to_new e full bad) h =
      omega (arith, opened-with_room lb.kitchens (new_handle lb.next_kitchen_id lb.n_cooks) full)

-- No kitchen is started early: placing orders, however it ends, never raises the number of
-- kitchens that still have room above the number there was, or above one.
pub place_orders-with_room :
    {S : Type 0} (os : Os) (orders : List PizzaOrder) (lb : LoadBalancer S) (n : ℕ)
    → with_room lb.kitchens ≤ suc n
    → with_room (state_of (place_orders os orders lb)).kitchens ≤ suc n
place_orders-with_room os orders lb n h =
    place_orders-keeps os (λ here. with_room here.kitchens ≤ suc n)
      (λ order here. Placed-with_room n (place_pizza-Placed os order here)) orders lb h
