-- ===== src/Kitchen/ThreadPool/Refusal.antt =====
-- A pizza refused although there is room for it.
use plazza.Prelude.{
  ℕ, ◌+◌, ◌≤◌, ◌<◌, ◌≡◌, ◌≢◌, refl, ap, ◌∙◌, false, List, [], ◌∷◌, ◌++◌, some, arith, length,
  length-append, get_elem?, total, total-set,
}
use plazza.Pizza.Recipe.{PizzaRecipe}
use plazza.Kitchen.Cook.{Cook, done_packet}
use plazza.Kitchen.ThreadPool.{
  Place, holding, gathering, baking, announced, leaving, looping, ended, aborted, Worker,
  ThreadPool, is_full, add_pizza,
}
use plazza.Kitchen.ThreadPool.Capacity.{owed_at, owed, IsValid}
use plazza.Kitchen.ThreadPool.Steps.{
  Move, pop, leave, begin, gather, give_up, abort, announce, lose, finish, release, put,
}

-- 1 where the thread has a pizza that it has not announced.
abbrev pub unannounced_at : Place → ℕ
unannounced_at (holding p) = 1
unannounced_at (gathering p) = 1
unannounced_at (baking p) = 1
unannounced_at _ = 0

abbrev pub unannounced : Worker → ℕ
unannounced w = unannounced_at w.place

unannounced-owed_at : (at : Place) → unannounced_at at ≤ owed_at at
unannounced-owed_at looping = omega arith
unannounced-owed_at (holding p) = omega arith
unannounced-owed_at (gathering p) = omega arith
unannounced-owed_at (baking p) = omega arith
unannounced-owed_at (announced p) = omega arith
unannounced-owed_at leaving = omega arith
unannounced-owed_at ended = omega arith
unannounced-owed_at aborted = omega arith

unannounced-owed : (w : Worker) → unannounced w ≤ owed w
unannounced-owed w = unannounced-owed_at w.place

pub total-unannounced : (ws : List Worker) → total unannounced ws ≤ total owed ws
total-unannounced [] = omega arith
total-unannounced (w ∷ ws) = omega (arith, total-unannounced ws, unannounced-owed w)

-- The pool after the move of a thread that has sent a Done packet.
record Announced (s t : ThreadPool) (to : Place) : Type 0 where
  same_load : t.load ≡ s.load
  same_capacity : t.max_capacity ≡ s.max_capacity
  same_queue : t.queue ≡ s.queue
  same_workers : t.workers ≡ s.workers
  announces : unannounced_at to ≡ 0

longer : {A : Type 0} (xs : List A) (x : A) → xs ≢ xs ++ (x ∷ [])
longer xs x e = absurd (omega (arith, length-append xs (x ∷ []), ap length e))

-- From the oven, only the move that sends the packet adds to the results.
Move-Announced :
    {s t : ThreadPool} {c c' : Cook} {at to : Place} (p : PizzaRecipe)
    → Move s c at t c' to
    → at ≡ baking p
    → t.results ≡ s.results ++ (done_packet p ∷ [])
    → Announced s t to
Move-Announced p (pop q rest h) e sends = absurd (cc)
Move-Announced p (leave r q) e sends = absurd (cc)
Move-Announced p (begin q) e sends = absurd (cc)
Move-Announced p (gather q needed stock n w) e sends = absurd (cc)
Move-Announced p (give_up q needed n w) e sends = absurd (cc)
Move-Announced p (abort q x n) e sends = absurd (cc)
Move-Announced p (announce q) e sends = record {
  same_load = refl;
  same_capacity = refl;
  same_queue = refl;
  same_workers = refl;
  announces = refl;
}
Move-Announced {s} p (lose q) e sends = absurd (longer s.results (done_packet p) sends)
Move-Announced p (finish q) e sends = absurd (cc)
Move-Announced p release e sends = absurd (cc)

-- A pool that keeps its invariant, by which its load counts the pizzas in its queue and in the hands
-- of cooks and its capacity fits a std::size_t, and that is at its capacity, refuses a pizza still
-- after a thread with a pizza in the oven has made the move that sends the Done packet of that
-- pizza: at that point fewer pizzas than the capacity are left in the queue and unannounced.
pub add_pizza-late :
    (pizza p : PizzaRecipe) (s t : ThreadPool) (i : ℕ) (w : Worker) (c : Cook) (to : Place)
    → IsValid s
    → s.load ≡ s.max_capacity
    → get_elem? s.workers i ≡ some w
    → w.place ≡ baking p
    → Move s w.cook w.place t c to
    → t.results ≡ s.results ++ (done_packet p ∷ [])
    → (add_pizza pizza (put t i c to) ≡ (put t i c to, false))
      × (length t.queue + total unannounced (put t i c to).workers < t.max_capacity)
unfolding add_pizza is_full
add_pizza-late pizza p s t i w c to v full at oven move sends =
    let new : Worker = record { cook = c; place = to } in
    let done : Announced s t to = Move-Announced p move oven sends in
    let at' : get_elem? t.workers i ≡ some w = ap (λ ws. get_elem? ws i) done.same_workers ∙ at in
    (
      ground (arith, done.same_load, done.same_capacity),
      omega (
        arith,
        v.counted,
        total-unannounced s.workers,
        total-set unannounced t.workers i new at',
        ap (total unannounced) done.same_workers,
        ap length done.same_queue,
        ap unannounced_at oven,
        done.same_capacity,
        done.announces,
      ),
    )
