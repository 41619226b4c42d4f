-- ===== src/Shell.antt =====
-- shell/Shell.cpp: the lines that the user types, and the callbacks that they lead to. A callback
-- works on the state of the program. The kernel's answers to `select` and `getline` are a list of
-- events; none of the callbacks that the program installs calls `stop`.
pub mod Laws
pub mod Keeping
pub mod Examples
use plazza.Prelude.{
  ℕ, Bool, true, false, ◌||◌, List, [], ◌∷◌, ◌++◌, Option, none, some, codes, str_eq, ◌==◌, ◌&&◌,
  if◌then◌else◌,
}
use plazza.Errors.{Result, ok, thrown}
use plazza.Pizza.{PizzaOrder}
use plazza.Parser.{parse}
use plazza.Reception.{Outcome, returned, threw}
use plazza.Reception.LoadBalancer.{◌>>=◌}

pub record Callbacks (W : Type 0) : Type 0 where
  pub order_cb : Option (List PizzaOrder → W → Outcome W)
  pub status_cb : Option (W → Outcome W)
  pub poll_cb : Option (W → Outcome W)

-- The class: whether `run` goes on, and the callbacks.
pub record Shell (W : Type 0) : Type 0 where
  pub running : Bool
  pub callbacks : Callbacks W

unfoldable pub new_shell : {W : Type 0} → Shell W
new_shell = record {
  running = false;
  callbacks = record { order_cb = none; status_cb = none; poll_cb = none };
}

module _ {W : Type 0} where
  unfoldable pub stop : Shell W → Shell W
  stop shell = record shell { running = false }

  unfoldable pub set_order_callback : (List PizzaOrder → W → Outcome W) → Shell W → Shell W
  set_order_callback callback shell = record shell {
    callbacks = record shell.callbacks { order_cb = some callback };
  }

  unfoldable pub set_status_callback : (W → Outcome W) → Shell W → Shell W
  set_status_callback callback shell = record shell {
    callbacks = record shell.callbacks { status_cb = some callback };
  }

  unfoldable pub set_poll_callback : (W → Outcome W) → Shell W → Shell W
  set_poll_callback callback shell = record shell {
    callbacks = record shell.callbacks { poll_cb = some callback };
  }

abbrev pub is_trimmed_off : ℕ → Bool
is_trimmed_off c = (c == b' ') || (c == b'\r') || (c == b'\t')

abbrev pub is_empty : List ℕ → Bool
is_empty [] = true
is_empty (c ∷ s) = false

-- The loop of `pop_back`.
unfoldable pub trimmed : List ℕ → List ℕ
trimmed [] = []
trimmed (c ∷ s) = let rest = trimmed s in if is_trimmed_off c && is_empty rest then [] else c ∷ rest

-- The handler of `handleLine`: the exception goes on, with "error: " before its text.
unfoldable pub catch_all : {W : Type 0} → Outcome W → Outcome W
catch_all (returned w) = returned w
catch_all (threw e w) = threw (codes "error: " ++ e) w

-- What `select` and `getline` give: a line, the end of the input, nothing in time, a failure.
pub data Event : Type 0 where
  line_read : List ℕ → Event
  end_of_input : Event
  timed_out : Event
  select_failed : Event

module _ {W : Type 0} (callbacks : Callbacks W) where
  abbrev pub call : Option (W → Outcome W) → W → Outcome W
  call none w = returned w
  call (some f) w = f w

  unfoldable pub call_order : Result (List PizzaOrder) → W → Outcome W
  call_order (thrown e) w = threw e w
  call_order (ok orders) w = elim callbacks.order_cb [ none ↦ returned w | some f ↦ f orders w ]

  unfoldable pub handle_line : List ℕ → W → Outcome W
  unfolding trimmed catch_all call_order
  handle_line line w =
      let line' = trimmed line in
      if is_empty line'
      then returned w
      else if str_eq line' (codes "status")
      then call callbacks.status_cb w
      else catch_all (call_order (parse line') w)

  unfoldable pub run : List Event → W → Outcome W
  unfolding handle_line
  run [] w = returned w
  run (line_read line ∷ events) w = handle_line line w >>= run events
  run (end_of_input ∷ events) w = returned w
  run (timed_out ∷ events) w = call callbacks.poll_cb w >>= run events
  run (select_failed ∷ events) w = run events w
