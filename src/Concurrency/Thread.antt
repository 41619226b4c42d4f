-- ===== src/Concurrency/Thread.antt =====
-- concurrency/Thread.cpp: objects that own a thread, as the operations of a program that keeps them
-- in numbered places. `joins` says whether `pthread_join` succeeds. The logs of the calls of
-- pthread_create and of pthread_join that succeeded stand newest first, and `callbacks` counts
-- the functions that stand on the heap. An operation gives `none` where it ends the program.
pub mod Joining
use plazza.Prelude.{
  ℕ, suc, ◌-◌, Bool, true, false, List, [], ◌∷◌, Option, none, some, set, length, ltb, ◌==◌,
  if◌then◌else◌,
}
use plazza.Errors.{Result, ok, thrown}
use plazza.Concurrency.Places.{at}

pub record Thread : Type 0 where
  pub thread : ℕ
  pub launched : Bool

pub record Threads : Type 0 where
  pub objects : List (Option Thread)
  pub created : List ℕ
  pub joined : List ℕ
  pub callbacks : ℕ
  pub finished : ℕ  -- threads that have returned from `entryPoint`

-- An operation of the program. No program constructs an object in a place that has one, uses a
-- place that has none, or has more threads return than were created: such an operation changes
-- nothing here.
pub data Operation : Type 0 where
  construct : ℕ → Option ℕ → Operation  -- the thread that pthread_create gives, if it gives one
  move_construct : ℕ → ℕ → Operation  -- to, from
  move_assign : ℕ → ℕ → Operation  -- to, from
  destroy : ℕ → Operation
  enter : Result (Unit {0}) → Operation  -- a new thread runs `entryPoint`, and its callback

unfoldable pub new_callback : Threads → Threads
new_callback s = record s { callbacks = suc s.callbacks }

unfoldable pub delete_callback : Threads → Threads
delete_callback s = record s { callbacks = s.callbacks - 1 }

-- Where the thread could not be created the constructor throws, and there is no object.
abbrev pub launch : ℕ → Option ℕ → Threads → Threads
launch i none s = delete_callback s
launch i (some t) s = record s {
  objects = set s.objects i (some (record { thread = t; launched = true }));
  created = t ∷ s.created;
}

unfoldable pub construct_at : ℕ → Option ℕ → Option (Option Thread) → Threads → Threads
unfolding new_callback delete_callback
construct_at i given (some none) s = launch i given (new_callback s)
construct_at i given _ s = s

-- What is left of an object that was moved from.
abbrev pub moved_from : Thread → Thread
moved_from p = record p { launched = false }

unfoldable pub move_construct_at :
    ℕ → ℕ → Option (Option Thread) → Option (Option Thread) → Threads → Threads
move_construct_at i j (some none) (some (some p)) s = record s {
  objects = set (set s.objects i (some p)) j (some (moved_from p));
}
move_construct_at i j _ _ s = s

-- An exception of the callback ends the program; else it is deleted on the return.
unfoldable pub entry_point : Result (Unit {0}) → Threads → Option Threads
unfolding delete_callback
entry_point (thrown e) s = none
entry_point (ok u) s = some (delete_callback (record s { finished = suc s.finished }))

module _ (joins : ℕ → Bool) where
  -- `if (launched_ && pthread_join(thread_, nullptr) != 0) std::abort()`, on the log.
  unfoldable pub join : Thread → List ℕ → Option (List ℕ)
  join p log =
      if p.launched then (if joins p.thread then some (p.thread ∷ log) else none) else some log

  abbrev pub with_log : (List ℕ → Threads) → Option (List ℕ) → Option Threads
  with_log f none = none
  with_log f (some log) = some (f log)

  unfoldable pub move_assign_at :
      ℕ → ℕ → Option (Option Thread) → Option (Option Thread) → Threads → Option Threads
  unfolding join
  move_assign_at i j (some (some old)) (some (some p)) s =
      if i == j
      then some s
      else with_log
          (λ log. record s {
            objects = set (set s.objects i (some p)) j (some (moved_from p));
            joined = log;
          })
          (join old s.joined)
  move_assign_at i j _ _ s = some s

  unfoldable pub destroy_at : ℕ → Option (Option Thread) → Threads → Option Threads
  unfolding join
  destroy_at i (some (some p)) s =
      with_log (λ log. record s { objects = set s.objects i none; joined = log }) (join p s.joined)
  destroy_at i _ s = some s

  unfoldable pub operate : Operation → Threads → Option Threads
  unfolding construct_at move_construct_at move_assign_at destroy_at entry_point
  operate (construct i given) s = some (construct_at i given (at s.objects i) s)
  operate (move_construct i j) s = some (move_construct_at i j (at s.objects i) (at s.objects j) s)
  operate (move_assign i j) s = move_assign_at i j (at s.objects i) (at s.objects j) s
  operate (destroy i) s = destroy_at i (at s.objects i) s
  operate (enter outcome) s =
      if ltb s.finished (length s.created) then entry_point outcome s else some s

  abbrev pub before : (Threads → Option Threads) → Option Threads → Option Threads
  before rest none = none
  before rest (some s) = rest s

  unfoldable pub operate_all : List Operation → Threads → Option Threads
  unfolding operate
  operate_all [] s = some s
  operate_all (o ∷ operations) s = before (operate_all operations) (operate o s)
