-- ===== src/Kitchen/ThreadPool/Destruction.antt =====
-- The destructor of ThreadPool (kitchen/threadPool/ThreadPool.hpp), which is the default one: it
-- destroys the members in the reverse of the order of their declarations, and the vector of threads
-- joins each thread. Nothing holds up the threads meanwhile. Members of built-in type are left out.
pub mod Ending
pub mod Faults
pub mod Examples
use plazza.Prelude.{
  ℕ, zero, suc, ◌+◌, ◌*◌, ◌≤◌, ◌≡◌, ◌≢◌, refl, ap, ◌∙◌, sym, subst, Bool, true, false, List, [],
  ◌∷◌, some, arith, get_elem?, total, total-set, All, All-get_elem?,
}
use plazza.Kitchen.Cook.{Cook}
use plazza.Kitchen.ThreadPool.{
  Place, looping, holding, gathering, baking, announced, leaving, ended, aborted, Worker,
  ThreadPool,
}
use plazza.Kitchen.ThreadPool.Steps.{
  Move, pop, leave, begin, gather, give_up, abort, announce, lose, finish, release, put,
}

pub data Member : Type 0 where
  cook_deque : Member
  thread_vector : Member
  pizza_queue : Member
  queue_mutex : Member
  condition_variable : Member

abbrev pub declared : List Member
declared = cook_deque ∷ thread_vector ∷ pizza_queue ∷ queue_mutex ∷ condition_variable ∷ []

-- Onto the members that are destroyed later.
unfoldable pub reverse_onto : List Member → List Member → List Member
reverse_onto [] later = later
reverse_onto (m ∷ ms) later = reverse_onto ms (m ∷ later)

unfoldable pub destruction_order : List Member
unfolding reverse_onto
destruction_order = reverse_onto declared []

-- A pool while the destructor runs: `left` has still to be destroyed.
pub record Closing : Type 0 where
  pub pool : ThreadPool
  pub left : List Member

abbrev pub IsEnded : Worker → Type 0
IsEnded w = w.place ≡ ended

-- 1 where the mutex is there no more.
abbrev pub without_mutex : List Member → ℕ
without_mutex [] = 1
without_mutex (queue_mutex ∷ ms) = 0
without_mutex (cook_deque ∷ ms) = without_mutex ms
without_mutex (thread_vector ∷ ms) = without_mutex ms
without_mutex (pizza_queue ∷ ms) = without_mutex ms
without_mutex (condition_variable ∷ ms) = without_mutex ms

-- 1 where the next step of the thread locks the mutex of the queue.
abbrev pub locks : Place → ℕ
locks looping = 1
locks (holding p) = 0
locks (gathering p) = 0
locks (baking p) = 0
locks (announced p) = 0
locks leaving = 0
locks ended = 0
locks aborted = 0

-- The number counts the steps that lock a mutex that has been destroyed.
pub data Run (s : Closing) : ℕ → Closing → Type 0 where
  begun : Run s 0 s
  destroys :
      {n : ℕ} {t : Closing} (m : Member) (rest : List Member)
      → Run s n t
      → t.left ≡ m ∷ rest
      → m ≢ thread_vector
      → Run s n (record t { left = rest })
  joins :
      {n : ℕ} {t : Closing} (rest : List Member)
      → Run s n t
      → t.left ≡ thread_vector ∷ rest
      → All IsEnded t.pool.workers
      → Run s n (record t { left = rest })
  works :
      {n : ℕ} {t : Closing} (i : ℕ) (w : Worker) (u : ThreadPool) (c : Cook) (to : Place)
      → Run s n t
      → get_elem? t.pool.workers i ≡ some w
      → Move t.pool w.cook w.place u c to
      → Run s (n + without_mutex t.left * locks w.place) (record t { pool = put u i c to })
