-- ===== src/Main/Session/Examples.antt =====
-- A run of the whole program: an order, a poll that finds one pizza done, and a status.
use plazza.Prelude.{ℕ, ◌≡◌, refl, List, [], ◌∷◌, none, arith, codes, str_eq}
use plazza.Ipc.{unpack, pack}
use plazza.Pizza.Factory.{create, margarita_recipe}
use plazza.Kitchen.Cook.{done_packet}
use plazza.Reception.{state_of}
use plazza.Reception.LoadBalancer.{Os}
use plazza.Reception.LoadBalancer.Shutdown.{shutdown_packet}
use plazza.Parser.{parse}
use plazza.Shell.{Event, line_read, timed_out, end_of_input}
use plazza.Main.Arguments.{opened}
use plazza.Main.Session.{Feed, run_shell}
use plazza.Main.Session.Validity.{IsSoundWorld, run_shell-IsSound}

abbrev willing : Os
willing = record { spawn_error = λ orders results. none; send_error = λ k p. none }

-- A margarita is done before each call, and every kitchen ends during a status.
abbrev feeds : ℕ → Feed
feeds n = record {
  os = willing;
  arrived = λ id. done_packet margarita_recipe ∷ [];
  fuel = 1;
  arrivals = λ round id. shutdown_packet ∷ [];
}

abbrev events : List Event
events =
    line_read (codes "margarita M x2") ∷ timed_out ∷ line_read (codes "status ") ∷ end_of_input ∷ []

run_shell-IsSound_example : IsSoundWorld (state_of (run_shell feeds events (opened 5)))
run_shell-IsSound_example = run_shell-IsSound feeds events 5 (omega arith) (omega arith)

-- Both pizzas are done, so that the order is announced, and the status has no kitchen to show.
run_shell-announces :
    (state_of (run_shell feeds events (opened 5))).reception.shared.world.ready ≡ 1 ∷ []
unfolding run_shell parse str_eq opened create unpack pack
run_shell-announces = refl

run_shell-prints :
    (state_of (run_shell feeds events (opened 5))).printed ≡ codes "No active kitchen.\n"
unfolding run_shell parse str_eq opened create unpack pack
run_shell-prints = refl
