-- ===== src/Concurrency/Mutex/Examples.antt =====
-- Two threads that use a mutex: one waits on a condition variable while the other has it.
use plazza.Prelude.{ℕ, ◌≡◌, refl, [], ◌∷◌, Option, none, some}
use plazza.Concurrency.Mutex.Calls.{
  lock_called, trylock_called, wait_begun, notify_one_called, effect, Changes, Kernel, History, has,
  Run, begun, called,
}
use plazza.Concurrency.Mutex.Exclusion.{Run-exclusive}

-- The kernel that does what the manual says and no more.
abbrev manual : Kernel
manual = record {
  K = Option ℕ;
  Steps = λ k t e k'. Changes (effect e) t k k';
  holder = λ k. k;
  step_changes = λ t step. step;
}

abbrev second_thread : ℕ
second_thread = 2

abbrev ebusy : ℕ
ebusy = 16

-- Newest first.
abbrev turns : History
turns =
    (2, notify_one_called 0)
    ∷ (2, lock_called 0)
    ∷ (1, wait_begun)
    ∷ (2, trylock_called 16)
    ∷ (1, lock_called 0)
    ∷ []

turns-Run : Run ebusy manual (some 2) turns
unfolding has
turns-Run =
    called {k = some 2} 2
      (called {k = none} 2
        (called {k = some 1} 1
          (called {k = some 1} 2 (called {k = none} 1 (begun refl) tt (refl, refl)) tt refl) refl
          (λ e. refl))
        tt (refl, refl))
      tt refl

Run-exclusive_example : second_thread ≡ 2
unfolding has
Run-exclusive_example = Run-exclusive ebusy manual second_thread 2 turns-Run refl refl
