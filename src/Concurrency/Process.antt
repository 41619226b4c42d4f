-- ===== src/Concurrency/Process.antt =====
-- concurrency/Process.cpp: objects that own a child process, as the operations of a program that
-- keeps them in numbered places. `pid` is `none` where `pid_` is -1. The logs of the calls of fork
-- that gave a child and of waitpid stand newest first.
pub mod Ownership
use plazza.Prelude.{
  ℕ, Bool, true, false, not, List, [], ◌∷◌, Option, none, some, set, ◌==◌, if◌then◌else◌,
}
use plazza.Concurrency.Places.{at}

pub record Process : Type 0 where
  pub pid : Option ℕ
  pub done : Bool

-- What a program has: its objects, where `none` is a place with no object.
pub record Processes : Type 0 where
  pub objects : List (Option Process)
  pub forked : List ℕ
  pub waited_for : List ℕ

-- `if (!done_ && pid_ > 0) waitpid(pid_, ...)`, on the log.
abbrev pub wait_pid : Option ℕ → List ℕ → List ℕ
wait_pid none log = log
wait_pid (some pid) log = pid ∷ log

unfoldable pub reap : Process → List ℕ → List ℕ
reap p log = if not p.done then wait_pid p.pid log else log

-- What is left of an object that was moved from.
abbrev pub moved_from : Process
moved_from = record { pid = none; done = true }

abbrev pub waited : Process → Process
waited p = elim p.pid [ none ↦ p | some pid ↦ record p { done = true } ]

-- An operation of the program. No program constructs an object in a place that has one, or uses a
-- place that has none: such an operation changes nothing here. A fork that fails throws, and makes
-- no object.
pub data Operation : Type 0 where
  construct : ℕ → ℕ → Operation  -- fork has given this child
  wait : ℕ → Operation
  move_construct : ℕ → ℕ → Operation  -- to, from
  move_assign : ℕ → ℕ → Operation  -- to, from
  destroy : ℕ → Operation

unfoldable pub construct_at : ℕ → ℕ → Option (Option Process) → Processes → Processes
construct_at i pid (some none) s = record s {
  objects = set s.objects i (some (record { pid = some pid; done = false }));
  forked = pid ∷ s.forked;
}
construct_at i pid _ s = s

unfoldable pub wait_at : ℕ → Option (Option Process) → Processes → Processes
unfolding reap
wait_at i (some (some p)) s = record s {
  objects = set s.objects i (some (waited p));
  waited_for = reap p s.waited_for;
}
wait_at i _ s = s

unfoldable pub move_construct_at :
    ℕ → ℕ → Option (Option Process) → Option (Option Process) → Processes → Processes
move_construct_at i j (some none) (some (some p)) s = record s {
  objects = set (set s.objects i (some p)) j (some moved_from);
}
move_construct_at i j _ _ s = s

unfoldable pub move_assign_at :
    ℕ → ℕ → Option (Option Process) → Option (Option Process) → Processes → Processes
unfolding reap
move_assign_at i j (some (some old)) (some (some p)) s = if i == j then s else record s {
  objects = set (set s.objects i (some p)) j (some moved_from);
  waited_for = reap old s.waited_for;
}
move_assign_at i j _ _ s = s

unfoldable pub destroy_at : ℕ → Option (Option Process) → Processes → Processes
unfolding reap
destroy_at i (some (some p)) s = record s {
  objects = set s.objects i none;
  waited_for = reap p s.waited_for;
}
destroy_at i _ s = s

unfoldable pub operate : Operation → Processes → Processes
unfolding construct_at wait_at move_construct_at move_assign_at destroy_at
operate (construct i pid) s = construct_at i pid (at s.objects i) s
operate (wait i) s = wait_at i (at s.objects i) s
operate (move_construct i j) s = move_construct_at i j (at s.objects i) (at s.objects j) s
operate (move_assign i j) s = move_assign_at i j (at s.objects i) (at s.objects j) s
operate (destroy i) s = destroy_at i (at s.objects i) s

unfoldable pub operate_all : List Operation → Processes → Processes
unfolding operate
operate_all [] s = s
operate_all (o ∷ operations) s = operate_all operations (operate o s)
