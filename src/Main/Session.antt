-- ===== src/Main/Session.antt =====
-- main.cpp: the shell that main runs, with the callbacks of `configureShellCallbacks` on a load
-- balancer. Each call of a callback meets the packets that have come in from the kitchens by then,
-- and a kernel of its own; a status that its kitchens never complete holds the program up for ever.
pub mod Validity
pub mod Examples
use plazza.Prelude.{ℕ, suc, Bool, true, false, List, [], ◌++◌, Option, none, some, if◌then◌else◌}
use plazza.Pizza.{PizzaOrder}
use plazza.Ipc.{Packet}
use plazza.Display.{print_status}
use plazza.Reception.{Outcome, returned, threw}
use plazza.Reception.LoadBalancer.{LoadBalancer, Os}
use plazza.Reception.LoadBalancer.Polling.{Answer, arrive}
use plazza.Shell.{
  Shell, Callbacks, Event, new_shell, set_order_callback, set_status_callback, set_poll_callback,
  run,
}
use plazza.Main.{Orders, on_order, on_poll, on_status}
use plazza.Main.Arguments.{opened}

-- What a call of a callback meets: the kernel, the packets that have come in since the last call,
-- and those that come in between two rounds of a status, with a bound on its rounds.
pub record Feed : Type 0 where
  pub os : Os
  pub arrived : ℕ → List Packet
  pub fuel : ℕ
  pub arrivals : ℕ → ℕ → List Packet

-- The load balancer, what the status callback has printed, how many calls there were, and
-- whether one of them does not return.
pub record World : Type 0 where
  pub reception : LoadBalancer Orders
  pub printed : List ℕ
  pub calls : ℕ
  pub hung : Bool

module _ (feeds : ℕ → Feed) where
  abbrev pub feed_of : World → Feed
  feed_of w = feeds w.calls

  -- The load balancer that a callback meets.
  abbrev pub met : World → LoadBalancer Orders
  met w = record w.reception { kitchens = arrive (feed_of w).arrived w.reception.kitchens }

  abbrev pub left : World → Outcome (LoadBalancer Orders) → Outcome World
  left w (returned lb) = returned (record w { reception = lb; calls = suc w.calls })
  left w (threw e lb) = threw e (record w { reception = lb; calls = suc w.calls })

  abbrev pub answered : World → Option (Outcome (Answer Orders)) → Outcome World
  answered w none = returned (record w { hung = true })
  answered w (some (threw e (lb, statuses))) =
      threw e (record w { reception = lb; calls = suc w.calls })
  answered w (some (returned (lb, statuses))) = returned (record w {
    reception = lb;
    printed = w.printed ++ print_status statuses;
    calls = suc w.calls;
  })

  unfoldable pub order_callback : List PizzaOrder → World → Outcome World
  unfolding on_order arrive
  order_callback orders w =
      if w.hung then returned w else left w (on_order (feed_of w).os orders (met w))

  unfoldable pub poll_callback : World → Outcome World
  unfolding on_poll arrive
  poll_callback w = if w.hung then returned w else left w (on_poll (met w))

  unfoldable pub status_callback : World → Outcome World
  unfolding on_status arrive print_status
  status_callback w =
      if w.hung
      then returned w
      else answered w (on_status (feed_of w).os (feed_of w).fuel (feed_of w).arrivals (met w))

  unfoldable pub configure_shell_callbacks : Shell World → Shell World
  unfolding set_order_callback set_status_callback set_poll_callback order_callback poll_callback
      status_callback
  configure_shell_callbacks shell =
      set_poll_callback poll_callback
        (set_status_callback status_callback (set_order_callback order_callback shell))

  abbrev pub begin : LoadBalancer Orders → World
  begin lb = record { reception = lb; printed = []; calls = 0; hung = false }

  -- The shell of main, run on what the user does.
  unfoldable pub run_shell : List Event → LoadBalancer Orders → Outcome World
  unfolding configure_shell_callbacks new_shell run
  run_shell events lb = run (configure_shell_callbacks new_shell).callbacks events (begin lb)

  abbrev pub reception_of : Outcome World → Outcome (LoadBalancer Orders)
  reception_of (returned w) = returned w.reception
  reception_of (threw e w) = threw e w.reception

  -- What main sees of it, where it returns.
  unfoldable pub session : List Event → LoadBalancer Orders → Outcome (LoadBalancer Orders)
  unfolding run_shell
  session events lb = reception_of (run_shell events lb)
