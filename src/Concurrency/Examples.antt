-- ===== src/Concurrency/Examples.antt =====
-- The theorems of processes and threads for programs that move an object and destroy all places.
use plazza.Prelude.{refl, List, [], ◌∷◌, none, some, true}
use plazza.Errors.{ok}
use plazza.Concurrency.Thread
use plazza.Concurrency.Thread.{Threads}
use plazza.Concurrency.Thread.Joining.{Goes, operate_all-Goes}
use plazza.Concurrency.Process.{
  Processes, Operation, construct, wait, move_assign, move_construct, destroy, operate_all,
}
use plazza.Concurrency.Process.Ownership.{IsBalanced, operate_all-IsBalanced}

abbrev no_objects : Processes
no_objects = record { objects = none ∷ none ∷ none ∷ []; forked = []; waited_for = [] }

abbrev moves : List Operation
moves =
    construct 0 71
    ∷ construct 1 72
    ∷ move_construct 2 0
    ∷ wait 2
    ∷ move_assign 2 1
    ∷ destroy 0
    ∷ destroy 1
    ∷ destroy 2
    ∷ []

operate_all-IsBalanced_example : IsBalanced 72 (operate_all moves no_objects)
operate_all-IsBalanced_example = operate_all-IsBalanced 72 moves no_objects refl

abbrev no_threads : Threads
no_threads = record {
  objects = none ∷ none ∷ none ∷ [];
  created = [];
  joined = [];
  callbacks = 0;
  finished = 0;
}

-- A thread that cannot be created, two that can, an object that is moved to, and one that is moved
-- from and destroyed.
abbrev thread_moves : List Thread.Operation
thread_moves =
    Thread.construct 0 none
    ∷ Thread.construct 0 (some 5)
    ∷ Thread.construct 1 (some 6)
    ∷ Thread.enter (ok tt)
    ∷ Thread.move_construct 2 0
    ∷ Thread.move_assign 2 1
    ∷ Thread.destroy 0
    ∷ Thread.destroy 1
    ∷ Thread.destroy 2
    ∷ []

operate_all-Goes_example : Goes 6 (Thread.operate_all (λ t. true) thread_moves no_threads)
operate_all-Goes_example =
    operate_all-Goes (λ t. true) (λ t. refl) 6 thread_moves no_threads
      (refl, (refl, (refl, (refl, (refl, (refl, (refl, (refl, (refl, tt)))))))))
      (record { balanced = refl; tidy = refl })
