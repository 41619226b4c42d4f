-- ===== src/Main/Session/Validity.antt =====
-- The invariants in a run of the whole program.
use plazza.Prelude.{ℕ, ◌<◌, ◌^◌, refl, List, Option, none, some, arith, if_both}
use plazza.Pizza.{PizzaOrder}
use plazza.Reception.{Outcome, returned, threw, state_of}
use plazza.Reception.LoadBalancer.{LoadBalancer}
use plazza.Reception.LoadBalancer.Validity
use plazza.Reception.LoadBalancer.Validity.{
  dispatch-IsValid, update_kitchens-IsValid, visited-IsValid,
}
use plazza.Reception.LoadBalancer.World.{update_kitchens-world}
use plazza.Reception.LoadBalancer.Polling.{Answer}
use plazza.Reception.LoadBalancer.Polling.Validity.{AtEnd}
use plazza.Reception.LoadBalancer.Polling.Requests.{arrive-KeepsAll}
use plazza.Reception.LoadBalancer.Polling.Keeping.{get_status-IsValid, get_status-world}
use plazza.Shell.{Event, new_shell}
use plazza.Shell.Keeping.{run-keeps}
use plazza.Main.{Orders, on_done, on_order, on_poll, on_status, update_world, emplace, total_of}
use plazza.Main.Pending
use plazza.Main.Pending.{on_done-IsValid, on_order-IsValid}
use plazza.Main.Arguments.{opened}
use plazza.Main.Session.{
  Feed, World, feed_of, met, left, answered, order_callback, poll_callback, status_callback,
  configure_shell_callbacks, begin, run_shell,
}

-- The invariant of the load balancer, and that of the pending orders.
pub record IsSound (lb : LoadBalancer Orders) : Type 0 where
  pub kitchens : Validity.IsValid lb
  pub orders : Pending.IsValid lb.shared.world

abbrev pub IsSoundWorld : World → Type 0
IsSoundWorld w = IsSound w.reception

update_world-IsValid :
    (f : Orders → Orders) (lb : LoadBalancer Orders)
    → Validity.IsValid lb
    → Validity.IsValid (update_world f lb)
update_world-IsValid f lb v = record {
  bounded = v.bounded;
  numbered = v.numbered;
  some_room = v.some_room;
}

module _ (feeds : ℕ → Feed) where
  met-IsSound : (w : World) → IsSoundWorld w → IsSound (met feeds w)
  unfolding order_callback
  met-IsSound w v = record {
    kitchens =
        visited-IsValid (some on_done) w.reception _ w.reception.shared
          (arrive-KeepsAll (feed_of feeds w).arrived w.reception.kitchens) v.kitchens;
    orders = v.orders;
  }

  left-IsSound :
      (w : World) (o : Outcome (LoadBalancer Orders))
      → IsSound (state_of o)
      → IsSoundWorld (state_of (left feeds w o))
  left-IsSound w (returned lb) v = v
  left-IsSound w (threw e lb) v = v

  answered-IsSound :
      (w : World) (o : Option (Outcome (Answer Orders)))
      → IsSoundWorld w
      → AtEnd (λ answer. IsSound answer.0) o
      → IsSoundWorld (state_of (answered feeds w o))
  unfolding status_callback
  answered-IsSound w none v h = v
  answered-IsSound w (some (returned answer)) v h = h
  answered-IsSound w (some (threw e answer)) v h = h

  order_callback-IsSound :
      (orders : List PizzaOrder) (w : World)
      → IsSoundWorld w
      → IsSoundWorld (state_of (order_callback feeds orders w))
  unfolding order_callback on_order
  order_callback-IsSound orders w v =
      let met_sound : IsSound (met feeds w) = met-IsSound w v in
      if_both (λ o. IsSoundWorld (state_of o)) w.hung _ _ v
        (left-IsSound w (on_order (feed_of feeds w).os orders (met feeds w)) (record {
          kitchens =
              dispatch-IsValid (some on_done)
                (update_world (emplace (total_of 0 orders)) (met feeds w)) (feed_of feeds w).os
                orders
                (update_world-IsValid (emplace (total_of 0 orders)) (met feeds w)
                  met_sound.kitchens);
          orders = on_order-IsValid (feed_of feeds w).os orders (met feeds w) met_sound.orders;
        }))

  poll_callback-IsSound :
      (w : World) → IsSoundWorld w → IsSoundWorld (state_of (poll_callback feeds w))
  unfolding poll_callback on_poll
  poll_callback-IsSound w v =
      let met_sound : IsSound (met feeds w) = met-IsSound w v in
      if_both (λ o. IsSoundWorld (state_of o)) w.hung _ _ v
        (left-IsSound w (on_poll (met feeds w)) (record {
          kitchens = update_kitchens-IsValid (some on_done) (met feeds w) met_sound.kitchens;
          orders =
              update_kitchens-world Pending.IsValid on_done on_done-IsValid (met feeds w)
                met_sound.orders;
        }))

  both-AtEnd :
      (o : Option (Outcome (Answer Orders)))
      → AtEnd (λ answer. Validity.IsValid answer.0) o
      → AtEnd (λ answer. Pending.IsValid answer.0.shared.world) o
      → AtEnd (λ answer. IsSound answer.0) o
  both-AtEnd none h k = tt
  both-AtEnd (some o) h k = record { kitchens = h; orders = k }

  status_callback-IsSound :
      (w : World) → IsSoundWorld w → IsSoundWorld (state_of (status_callback feeds w))
  unfolding status_callback on_status
  status_callback-IsSound w v =
      let met_sound : IsSound (met feeds w) = met-IsSound w v in
      let feed : Feed = feed_of feeds w in
      let got = on_status feed.os feed.fuel feed.arrivals (met feeds w) in
      if_both (λ o. IsSoundWorld (state_of o)) w.hung _ _ v
        (answered-IsSound w got v (
          both-AtEnd got
            (get_status-IsValid (some on_done) feed.os feed.fuel feed.arrivals (met feeds w)
              met_sound.kitchens)
            (get_status-world Pending.IsValid on_done on_done-IsValid feed.os feed.fuel
              feed.arrivals (met feeds w) met_sound.orders)))

  -- Whatever the user types, and for any number of cooks from 1 to below 2 ^ 63, whatever comes in
  -- from the kitchens and whatever the kernel refuses, the shell that main runs leaves a reception
  -- whose loads are within the capacity and whose kitchens have different numbers below the next
  -- one, and where the orders announced and then those pending are the orders 1, 2, 3 and so on up
  -- to the last, none of those pending complete, also where the run ends in an exception or a status
  -- does not return.
  pub run_shell-IsSound :
      (events : List Event) (n_cooks : ℕ)
      → 0 < n_cooks
      → n_cooks < 2 ^ 63
      → IsSoundWorld (state_of (run_shell feeds events (opened n_cooks)))
  unfolding run_shell configure_shell_callbacks opened
  run_shell-IsSound events n_cooks some_cook fits =
      run-keeps IsSoundWorld (configure_shell_callbacks feeds new_shell).callbacks
        order_callback-IsSound status_callback-IsSound poll_callback-IsSound events
        (begin feeds (opened n_cooks))
        (record {
          kitchens = record { bounded = tt; numbered = omega arith; some_room = omega arith };
          orders = record { in_turn = refl; unfinished = tt };
        })
