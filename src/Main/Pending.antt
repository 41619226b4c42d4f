-- ===== src/Main/Pending.antt =====
-- The queue of the orders that are not complete: each order is announced once, in its turn.
use plazza.Prelude.{
  Option, none, some, ℕ, zero, suc, ◌-◌, ◌≡◌, refl, sym, ap, ◌∙◌, inl, inr, List, [], ◌∷◌, ◌++◌,
  map, arith, All, All-append, append_assoc, map-append, Bool-cases, ◌==◌,
}
use plazza.Pizza.{PizzaType, PizzaSize, PizzaOrder}
use plazza.Reception.{Outcome, state_of}
use plazza.Reception.LoadBalancer.{LoadBalancer, Os}
use plazza.Ipc.{Packet}
use plazza.Reception.LoadBalancer.Polling.{Answer, arrive}
use plazza.Reception.LoadBalancer.Polling.Validity.{AtEnd}
use plazza.Reception.LoadBalancer.Polling.Keeping.{get_status-world}
use plazza.Reception.LoadBalancer.World.{update_kitchens-world, dispatch-world}
use plazza.Main.{
  Orders, count_down, front_done, on_done, total_of, is_positive_int, emplace, update_world,
  on_order, on_poll, on_status,
}
use plazza.Main.Deliveries.{IsOpen}

-- The numbers of the first `n` orders.
abbrev pub up_to : ℕ → List ℕ
up_to zero = []
up_to (suc n) = up_to n ++ (suc n ∷ [])

abbrev pub numbers : List (ℕ × ℕ) → List ℕ
numbers pending = map (λ o. o.0) pending

-- The orders announced and then those pending are all that have come, each once and in their
-- order, and each that is pending still needs a pizza.
pub record IsValid (orders : Orders) : Type 0 where
  pub in_turn : orders.ready ++ numbers orders.pending ≡ up_to orders.next_order_id
  pub unfinished : All IsOpen orders.pending

count_down-IsValid :
    (id n : ℕ) (rest : List (ℕ × ℕ)) (orders : Orders)
    → orders.pending ≡ (id, n) ∷ rest
    → IsValid orders
    → IsOpen (id, n)
    → All IsOpen rest
    → IsValid (count_down id n rest orders)
unfolding count_down
count_down-IsValid id n rest orders e v h k = elim (Bool-cases (n - 1 == 0)) [
  | inl f ↦ rw f (record {
    in_turn =
        append_assoc orders.ready (id ∷ []) (numbers rest)
        ∙ ap (λ p. orders.ready ++ numbers p) (sym e)
        ∙ v.in_turn;
    unfinished = k;
  })
  | inr f ↦ rw f (record {
    in_turn = ap (λ p. orders.ready ++ numbers p) (sym e) ∙ v.in_turn;
    unfinished = (ground arith, k);
  })
]

front_done-IsValid :
    (pending : List (ℕ × ℕ)) (orders : Orders)
    → orders.pending ≡ pending
    → All IsOpen pending
    → IsValid orders
    → IsValid (front_done pending orders)
unfolding front_done
front_done-IsValid [] orders e h v = v
front_done-IsValid ((id, n) ∷ rest) orders e h v = count_down-IsValid id n rest orders e v h.0 h.1

pub on_done-IsValid :
    (id : ℕ) (type : PizzaType) (size : PizzaSize) (orders : Orders)
    → IsValid orders
    → IsValid (on_done id type size orders)
unfolding on_done
on_done-IsValid id type size orders v = front_done-IsValid orders.pending orders refl v.unfinished v

emplace-IsValid : (n : ℕ) (orders : Orders) → IsValid orders → IsValid (emplace n orders)
unfolding emplace
emplace-IsValid n orders v = elim (Bool-cases (is_positive_int n)) [
  | inl e ↦
      let id : ℕ = suc orders.next_order_id in
      rw e (record {
        in_turn =
            ap (λ p. orders.ready ++ p) (map-append (λ o. o.0) orders.pending ((id, n) ∷ []))
            ∙ sym (append_assoc orders.ready (numbers orders.pending) (id ∷ []))
            ∙ ap (λ p. p ++ (id ∷ [])) v.in_turn;
        unfinished =
            All-append IsOpen orders.pending ((id, n) ∷ []) v.unfinished (ground arith, tt);
      })
  | inr e ↦ rw e v
]

pub on_order-IsValid :
    (os : Os) (orders : List PizzaOrder) (lb : LoadBalancer Orders)
    → IsValid lb.shared.world
    → IsValid (state_of (on_order os orders lb)).shared.world
unfolding on_order
on_order-IsValid os orders lb v =
    dispatch-world IsValid on_done on_done-IsValid os orders
      (update_world (emplace (total_of 0 orders)) lb)
      (emplace-IsValid (total_of 0 orders) lb.shared.world v)

-- What happens, in turn: packets come in from the kitchens, by their numbers, and the shell makes
-- its calls.
pub data Call : Type 0 where
  packets : (ℕ → List Packet) → Call
  order : Os → List PizzaOrder → Call
  poll : Call
  status : Os → ℕ → (ℕ → ℕ → List Packet) → Call

-- Where the polling for a status has not ended, nothing else is called.
abbrev pub after_status :
    (LoadBalancer Orders → LoadBalancer Orders)
    → LoadBalancer Orders
    → Option (Outcome (Answer Orders))
    → LoadBalancer Orders
after_status rest lb none = lb
after_status rest lb (some o) = rest (state_of o).0

unfoldable pub after : List Call → LoadBalancer Orders → LoadBalancer Orders
unfolding on_order on_poll on_status arrive
after [] lb = lb
after (packets arrived ∷ calls) lb =
    after calls (record lb { kitchens = arrive arrived lb.kitchens })
after (order os orders ∷ calls) lb = after calls (state_of (on_order os orders lb))
after (poll ∷ calls) lb = after calls (state_of (on_poll lb))
after (status os fuel arrivals ∷ calls) lb =
    after_status (after calls) lb (on_status os fuel arrivals lb)

after_status-IsValid :
    (rest : LoadBalancer Orders → LoadBalancer Orders) (lb : LoadBalancer Orders)
    (o : Option (Outcome (Answer Orders)))
    → IsValid lb.shared.world
    → AtEnd (λ answer. IsValid answer.0.shared.world) o
    → ((b : LoadBalancer Orders) → IsValid b.shared.world → IsValid (rest b).shared.world)
    → IsValid (after_status rest lb o).shared.world
after_status-IsValid rest lb none v h r = v
after_status-IsValid rest lb (some o) v h r = r (state_of o).0 h

-- From a state where this holds, as it does at the start: whatever is ordered, whatever packets
-- come in from the kitchens between two calls and during one, and whatever the kernel refuses, the
-- orders announced so far and then those pending are the orders 1, 2, 3 and so on up to the last
-- one, so that each is announced at most once and in its turn; and no order that still waits is
-- complete.
pub after-IsValid :
    (calls : List Call) (lb : LoadBalancer Orders)
    → IsValid lb.shared.world
    → IsValid (after calls lb).shared.world
unfolding after
after-IsValid [] lb v = v
after-IsValid (packets arrived ∷ calls) lb v = after-IsValid calls _ v
after-IsValid (order os orders ∷ calls) lb v =
    after-IsValid calls _ (on_order-IsValid os orders lb v)
after-IsValid (poll ∷ calls) lb v =
    after-IsValid calls _ (update_kitchens-world IsValid on_done on_done-IsValid lb v)
after-IsValid (status os fuel arrivals ∷ calls) lb v =
    after_status-IsValid (after calls) lb (on_status os fuel arrivals lb) v
      (get_status-world IsValid on_done on_done-IsValid os fuel arrivals lb v) (after-IsValid calls)
