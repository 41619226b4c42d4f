-- ===== src/Reception/LoadBalancer/Validity.antt =====
-- The invariant of the load balancer, and that each operation keeps it.
use plazza.Prelude.{
  ℕ, ◌≤◌, ◌<◌, ◌≡◌, refl, sym, subst, ◌∙◌, true, List, some, arith, All, All-append,
}
use plazza.Pizza.{PizzaOrder}
use plazza.Reception.{KitchenHandle, Shared, DoneCallback, Outcome, returned, threw, state_of}
use plazza.Reception.LoadBalancer.{
  LoadBalancer, Os, capacity_of, has_room, kitchen_at, accept_pizza, pizza_packet, place_orders,
  visit, update_kitchens, erase_dead, dispatch,
}
use plazza.Reception.LoadBalancer.Outcomes.{bind-keeps}
use plazza.Reception.LoadBalancer.Kitchens.{
  Ascending, All-update_at, All-erase_dead, Ascending-last, Ascending-mono, Ascending-erase_dead,
  Ascending-update_at,
}
use plazza.Reception.LoadBalancer.Scan.{IsLeast}
use plazza.Reception.LoadBalancer.Placing.{
  Placed, sent, opened, not_sent, not_started, not_sent_to_new, place_pizza-Placed,
  place_orders-keeps,
}
use plazza.Reception.LoadBalancer.Receiving.{
  Keeps, KeepsAll, visit-KeepsAll, KeepsAll-Ascending, KeepsAll-All,
}

-- A kitchen of the reception's capacity that is not overloaded.
abbrev pub IsBounded : ℕ → KitchenHandle → Type 0
IsBounded n_cooks k = (k.load ≤ k.capacity) × (k.capacity ≡ capacity_of n_cooks)

-- No kitchen has more pizzas than its capacity, every capacity is that of the command line, the
-- kitchens have different numbers, and the next number is new. That capacity, twice the number of
-- cooks modulo 2 ^ 64, is not 0: it would be 0 for 2 ^ 63 cooks, which the command line accepts.
pub record IsValid {S : Type 0} (lb : LoadBalancer S) : Type 0 where
  pub bounded : All (IsBounded lb.n_cooks) lb.kitchens
  pub numbered : Ascending 0 lb.kitchens lb.next_kitchen_id
  pub some_room : 0 < capacity_of lb.n_cooks

pub has_room-lt : (k : KitchenHandle) → has_room k ≡ true → k.load < k.capacity
unfolding has_room
has_room-lt k h = ground arith

-- The kitchen that was found had room for one more.
accept-IsBounded :
    {i load : ℕ} (n : ℕ) (order : PizzaOrder) (ks : List KitchenHandle)
    → IsLeast ks i load
    → (k : KitchenHandle) → kitchen_at i ks ≡ some k
    → IsBounded n k
    → IsBounded n (accept_pizza (pizza_packet order) k)
accept-IsBounded n order ks least k at b =
    let same : least.kitchen ≡ k = cc (sym least.stands ∙ at) in
    let room : k.load < k.capacity =
      subst (λ h. h.load < h.capacity) same (has_room-lt least.kitchen least.room) in
    (omega arith, b.1)

module _ {S : Type 0} {os : Os} {order : PizzaOrder} {lb : LoadBalancer S} where
  pub Placed-IsValid :
      {o : Outcome (LoadBalancer S)} → Placed os order lb o → IsValid lb → IsValid (state_of o)
  Placed-IsValid (sent i load least accepted) v = record {
    bounded =
        All-update_at (IsBounded lb.n_cooks) _ i lb.kitchens
          (accept-IsBounded lb.n_cooks order lb.kitchens least) v.bounded;
    numbered = Ascending-update_at _ (λ k. refl) 0 _ i lb.kitchens v.numbered;
    some_room = v.some_room;
  }
  Placed-IsValid (opened full started accepted) v = record {
    bounded =
        All-append (IsBounded lb.n_cooks) lb.kitchens _ v.bounded
          ((omega (arith, v.some_room), refl), tt);
    numbered = Ascending-last 0 _ lb.kitchens _ v.numbered refl;
    some_room = v.some_room;
  }
  Placed-IsValid (not_sent e i load least bad) v = v
  Placed-IsValid (not_started e full bad) v = record {
    bounded = v.bounded;
    numbered = Ascending-mono 0 0 _ _ lb.kitchens (omega arith) (omega arith) v.numbered;
    some_room = v.some_room;
  }
  Placed-IsValid (not_sent_to_new e full bad) v = record {
    bounded =
        All-append (IsBounded lb.n_cooks) lb.kitchens _ v.bounded
          ((omega (arith, v.some_room), refl), tt);
    numbered = Ascending-last 0 _ lb.kitchens _ v.numbered refl;
    some_room = v.some_room;
  }

module _ {S : Type 0} (done_cb : DoneCallback S) (lb : LoadBalancer S) where
  keep-IsBounded :
      (k k' : KitchenHandle) → Keeps k k' → IsBounded lb.n_cooks k → IsBounded lb.n_cooks k'
  keep-IsBounded k k' h b = (omega (arith, h.same_capacity, h.no_more), h.same_capacity ∙ b.1)

  pub visited-IsValid :
      (ks : List KitchenHandle) (shared : Shared S)
      → KeepsAll lb.kitchens ks
      → IsValid lb
      → IsValid (record lb { kitchens = ks; shared = shared })
  visited-IsValid ks shared r v = record {
    bounded = KeepsAll-All (IsBounded lb.n_cooks) keep-IsBounded lb.kitchens ks r v.bounded;
    numbered = KeepsAll-Ascending 0 _ lb.kitchens ks r v.numbered;
    some_room = v.some_room;
  }

  erased-IsValid :
      (ks : List KitchenHandle) (shared : Shared S)
      → IsValid (record lb { kitchens = ks; shared = shared })
      → IsValid (record lb { kitchens = erase_dead ks; shared = shared })
  erased-IsValid ks shared v = record {
    bounded = All-erase_dead (IsBounded lb.n_cooks) ks v.bounded;
    numbered = Ascending-erase_dead 0 _ ks v.numbered;
    some_room = v.some_room;
  }

  finish-IsValid :
      (m : Outcome (List KitchenHandle × Shared S))
      → visit done_cb lb.kitchens lb.shared ≡ m
      → KeepsAll lb.kitchens (state_of m).0
      → IsValid lb
      → IsValid (state_of (update_kitchens done_cb lb))
  unfolding update_kitchens
  finish-IsValid (returned (ks, s)) e r v =
      rw (e, update_kitchens) (erased-IsValid ks s (visited-IsValid ks s r v))
  finish-IsValid (threw x (ks, s)) e r v = rw (e, update_kitchens) (visited-IsValid ks s r v)

  -- `updateKitchens` keeps the invariant, whatever packets it meets.
  pub update_kitchens-IsValid : IsValid lb → IsValid (state_of (update_kitchens done_cb lb))
  update_kitchens-IsValid v =
      finish-IsValid (visit done_cb lb.kitchens lb.shared) refl
        (visit-KeepsAll done_cb lb.kitchens lb.shared) v

  -- Where twice the number of cooks modulo 2 ^ 64, the capacity of a kitchen, is not 0, which is a
  -- part of the invariant: `dispatch` keeps the invariant, whatever packets it meets first and
  -- whatever the kernel refuses, also where it ends in an exception.
  pub dispatch-IsValid :
      (os : Os) (orders : List PizzaOrder)
      → IsValid lb
      → IsValid (state_of (dispatch done_cb os orders lb))
  unfolding dispatch
  dispatch-IsValid os orders v =
      bind-keeps IsValid (update_kitchens done_cb lb) (place_orders os orders)
        (update_kitchens-IsValid v)
        (place_orders-keeps os IsValid
          (λ order here h. Placed-IsValid (place_pizza-Placed os order here) h) orders)
