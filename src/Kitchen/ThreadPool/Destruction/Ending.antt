-- ===== src/Kitchen/ThreadPool/Destruction/Ending.antt =====
-- The threads of a pool that have not ended, counted.
use plazza.Prelude.{
  ℕ, ◌+◌, ◌≤◌, ◌≡◌, refl, ap, ◌∙◌, List, [], ◌∷◌, some, arith, get_elem?, total, total-set, All,
}
use plazza.Kitchen.Cook.{Cook}
use plazza.Kitchen.ThreadPool.{
  Place, looping, holding, gathering, baking, announced, leaving, ended, aborted, Worker,
  ThreadPool,
}
use plazza.Kitchen.ThreadPool.Steps.{
  Move, pop, leave, begin, gather, give_up, abort, announce, lose, finish, release, put,
}
use plazza.Kitchen.ThreadPool.Destruction.{IsEnded, locks}

-- 1 where the thread has not ended.
abbrev pub unended_at : Place → ℕ
unended_at looping = 1
unended_at (holding p) = 1
unended_at (gathering p) = 1
unended_at (baking p) = 1
unended_at (announced p) = 1
unended_at leaving = 1
unended_at ended = 0
unended_at aborted = 1

abbrev pub unended : Worker → ℕ
unended w = unended_at w.place

-- A thread ends only from the head of its loop, where it locks the mutex.
pub record Ends (s t : ThreadPool) (at to : Place) : Type 0 where
  pub one : unended_at at ≡ 1
  pub locked : 1 ≤ unended_at to + locks at
  pub same_workers : t.workers ≡ s.workers

pub Move-Ends :
    {s t : ThreadPool} {c c' : Cook} {at to : Place} → Move s c at t c' to → Ends s t at to
Move-Ends (pop p rest q) = record { one = refl; locked = omega arith; same_workers = refl }
Move-Ends (leave r q) = record { one = refl; locked = omega arith; same_workers = refl }
Move-Ends (begin p) = record { one = refl; locked = omega arith; same_workers = refl }
Move-Ends (gather p needed stock n w) = record {
  one = refl;
  locked = omega arith;
  same_workers = refl;
}
Move-Ends (give_up p needed n w) = record { one = refl; locked = omega arith; same_workers = refl }
Move-Ends (abort p e n) = record { one = refl; locked = omega arith; same_workers = refl }
Move-Ends (announce p) = record { one = refl; locked = omega arith; same_workers = refl }
Move-Ends (lose p) = record { one = refl; locked = omega arith; same_workers = refl }
Move-Ends (finish p) = record { one = refl; locked = omega arith; same_workers = refl }
Move-Ends release = record { one = refl; locked = omega arith; same_workers = refl }

-- A step of one thread, in the number of those that have not ended.
pub work-unended :
    (s t : ThreadPool) (i : ℕ) (w : Worker) (c : Cook) (to : Place)
    → get_elem? s.workers i ≡ some w
    → Move s w.cook w.place t c to
    → total unended s.workers ≤ total unended (put t i c to).workers + locks w.place
work-unended s t i w c to at move =
    let ends : Ends s t w.place to = Move-Ends move in
    let new : Worker = record { cook = c; place = to } in
    let at' : get_elem? t.workers i ≡ some w = ap (λ ws. get_elem? ws i) ends.same_workers ∙ at in
    omega (
      arith,
      ends.one,
      ends.locked,
      total-set unended t.workers i new at',
      ap (total unended) ends.same_workers,
    )

pub All-unended : (ws : List Worker) → All IsEnded ws → total unended ws ≡ 0
All-unended [] all = refl
All-unended (w ∷ ws) (e, all) = omega (arith, ap unended_at e, All-unended ws all)
