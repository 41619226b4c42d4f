-- ===== src/Main/Examples.antt =====
-- The theorems of the pending orders: two orders wait, and a reception starts with none.
use plazza.Prelude.{◌≡◌, refl, List, [], ◌∷◌, none, arith, ℕ, ◌==◌, ◌↔◌, codes, str_eq}
use plazza.Pizza.Factory.{fresh_registry, margarita_recipe}
use plazza.Kitchen.Cook.{done_packet}
use plazza.Reception.LoadBalancer.Shutdown.{shutdown_packet}
use plazza.Reception.LoadBalancer.{LoadBalancer, Os}
use plazza.Main.{Orders}
use plazza.Main.Deliveries.{deliver, deliver-announces}
use plazza.Parser.{parse}
use plazza.Reception.{Outcome}
use plazza.Shell.{Event, line_read, timed_out, end_of_input}
use plazza.Main.Arguments.{Doubles, stoull, opened, exited, success, refused, reported, usage, main}
use plazza.Main.Arguments.Success.{Succeeds, main-Succeeds}
use plazza.Main.Session
use plazza.Main.Session.{Feed}
use plazza.Main.Pending.{IsValid, Call, packets, order, poll, status, after, after-IsValid}

abbrev two_waiting : Orders
two_waiting = record { pending = (4, 2) ∷ (5, 1) ∷ []; next_order_id = 5; ready = 1 ∷ 2 ∷ 3 ∷ [] }

deliver-announces_example :
    deliver ((0, 1, 4) ∷ (7, 8, 1) ∷ []) two_waiting
    ≡ record { pending = (5, 1) ∷ []; next_order_id = 5; ready = 1 ∷ 2 ∷ 3 ∷ 4 ∷ [] }
deliver-announces_example =
    deliver-announces ((4, 2) ∷ []) ((5, 1) ∷ []) two_waiting ((0, 1, 4) ∷ (7, 8, 1) ∷ []) refl
      (omega arith, tt) refl

abbrev opening_os : Os
opening_os = record { spawn_error = λ orders results. none; send_error = λ k p. none }

abbrev opening : LoadBalancer Orders
opening = record {
  shared = record {
    registry = fresh_registry;
    log = [];
    world = record { pending = []; next_order_id = 0; ready = [] };
  };
  kitchens = [];
  next_kitchen_id = 0;
  n_cooks = 2;
}

abbrev calls : List Call
calls =
    order opening_os (record { type = 1; size = 4; quantity = 3 } ∷ [])
    ∷ packets (λ id. done_packet margarita_recipe ∷ [])
    ∷ poll
    ∷ status opening_os 1 (λ round id. shutdown_packet ∷ [])
    ∷ []

after-IsValid_example : IsValid (after calls opening).shared.world
after-IsValid_example = after-IsValid calls opening (record { in_turn = refl; unfinished = tt })

-- A machine whose doubles are whole numbers.
abbrev whole : Doubles
whole = record { Double = ℕ; stod = stoull; at_most_zero = λ m. m == 0 }

abbrev events : List Event
events = line_read (codes "regina L x2") ∷ timed_out ∷ end_of_input ∷ []

-- The kernel refuses nothing, and no packet comes in.
abbrev feeds : ℕ → Feed
feeds n = record { os = opening_os; arrived = λ id. []; fuel = 0; arrivals = λ round id. [] }

abbrev session : ℕ → ℕ → LoadBalancer Orders → Outcome (LoadBalancer Orders)
session multiplier regen_ms lb = Session.session feeds events lb

main-Succeeds_example :
    (main whole opening_os session (codes "./plazza" ∷ codes "2" ∷ codes "5" ∷ codes "2000" ∷ [])
      ≡ exited success)
    ↔ Succeeds whole opening_os session (codes "./plazza") (codes "2") (codes "5") (codes "2000")
main-Succeeds_example =
    main-Succeeds whole opening_os session (codes "./plazza") (codes "2") (codes "5") (codes "2000")

-- The run of the whole program: the order is placed and the kitchen told to end.
main-run :
    main whole opening_os session (codes "./plazza" ∷ codes "2" ∷ codes "5" ∷ codes "2000" ∷ [])
    ≡ exited success
unfolding main Session.session str_eq parse opened
main-run = refl

main-mistyped :
    main whole opening_os session (codes "./plazza" ∷ codes "2" ∷ codes "five" ∷ codes "2000" ∷ [])
    ≡ exited (reported (codes "stoull"))
unfolding main
main-mistyped = refl

main-no_cooks :
    main whole opening_os session (codes "./plazza" ∷ codes "2" ∷ codes " +0x" ∷ codes "2000" ∷ [])
    ≡ exited refused
unfolding main
main-no_cooks = refl

main-two_arguments :
    main whole opening_os session (codes "./plazza" ∷ codes "2" ∷ codes "5" ∷ [])
    ≡ exited (usage (codes "./plazza"))
unfolding main
main-two_arguments = refl
