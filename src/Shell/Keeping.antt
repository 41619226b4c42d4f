-- ===== src/Shell/Keeping.antt =====
-- What each callback keeps, the shell keeps, whatever the user does.
use plazza.Prelude.{List, [], ◌∷◌, ℕ, Option, none, some, codes, str_eq, if_both}
use plazza.Errors.{Result, ok, thrown}
use plazza.Pizza.{PizzaOrder}
use plazza.Parser.{parse}
use plazza.Reception.{Outcome, returned, threw, state_of}
use plazza.Reception.LoadBalancer.Outcomes.{bind-keeps}
use plazza.Shell.{
  Callbacks, trimmed, is_empty, catch_all, call, call_order, handle_line, Event, line_read,
  end_of_input, timed_out, select_failed, run,
}

module _ {W : Type 0} (P : W → Type 0) where
  -- The callback, if it is set, keeps `P`.
  abbrev pub IsKeptBy : Option (W → Outcome W) → Type 0
  IsKeptBy none = Unit
  IsKeptBy (some f) = (w : W) → P w → P (state_of (f w))

  abbrev pub IsKeptByOrders : Option (List PizzaOrder → W → Outcome W) → Type 0
  IsKeptByOrders none = Unit
  IsKeptByOrders (some f) = (orders : List PizzaOrder) (w : W) → P w → P (state_of (f orders w))

  catch_all-keeps : (o : Outcome W) → P (state_of o) → P (state_of (catch_all o))
  unfolding catch_all
  catch_all-keeps (returned w) h = h
  catch_all-keeps (threw e w) h = h

  module _ (callbacks : Callbacks W) (orders_keep : IsKeptByOrders callbacks.order_cb)
      (status_keeps : IsKeptBy callbacks.status_cb) (poll_keeps : IsKeptBy callbacks.poll_cb) where
    call-keeps :
        (cb : Option (W → Outcome W)) (w : W)
        → IsKeptBy cb
        → P w
        → P (state_of (call callbacks cb w))
    call-keeps none w keeps h = h
    call-keeps (some f) w keeps h = keeps w h

    call_some-keeps :
        (cb : Option (List PizzaOrder → W → Outcome W)) (orders : List PizzaOrder) (w : W)
        → IsKeptByOrders cb
        → P w
        → P (state_of (elim cb [ none ↦ returned w | some f ↦ f orders w ]))
    call_some-keeps none orders w keeps h = h
    call_some-keeps (some f) orders w keeps h = keeps orders w h

    call_order-keeps :
        (r : Result (List PizzaOrder)) (w : W) → P w → P (state_of (call_order callbacks r w))
    unfolding call_order
    call_order-keeps (thrown e) w h = h
    call_order-keeps (ok orders) w h = call_some-keeps callbacks.order_cb orders w orders_keep h

    handle_line-keeps : (line : List ℕ) (w : W) → P w → P (state_of (handle_line callbacks line w))
    unfolding handle_line
    handle_line-keeps line w h =
        if_both (λ o. P (state_of o)) (is_empty (trimmed line)) _ _ h
          (if_both (λ o. P (state_of o)) (str_eq (trimmed line) (codes "status")) _ _
            (call-keeps callbacks.status_cb w status_keeps h)
            (catch_all-keeps (call_order callbacks (parse (trimmed line)) w)
              (call_order-keeps (parse (trimmed line)) w h)))

    pub run-keeps : (events : List Event) (w : W) → P w → P (state_of (run callbacks events w))
    unfolding run
    run-keeps [] w h = h
    run-keeps (line_read line ∷ events) w h =
        bind-keeps P (handle_line callbacks line w) (run callbacks events)
          (handle_line-keeps line w h) (run-keeps events)
    run-keeps (end_of_input ∷ events) w h = h
    run-keeps (timed_out ∷ events) w h =
        bind-keeps P (call callbacks callbacks.poll_cb w) (run callbacks events)
          (call-keeps callbacks.poll_cb w poll_keeps h) (run-keeps events)
    run-keeps (select_failed ∷ events) w h = run-keeps events w h
