-- ===== src/Kitchen/ThreadPool/Draining.antt =====
-- The threads of a pool that gets no more pizzas come to an end.
use plazza.Prelude.{
  ℕ, suc, ◌+◌, ◌*◌, ◌≤◌, ◌<◌, ◌≡◌, refl, ap, ◌∙◌, false, List, [], ◌∷◌, some, arith, length,
  get_elem?, total, total-set,
}
use plazza.Errors.{Result, ok, thrown}
use plazza.Pizza.Recipe.{PizzaRecipe}
use plazza.Kitchen.Ingredient.{Ingredient}
use plazza.Kitchen.IngredientStock.{
  IngredientStock, Turn, waits, refused, consumed, wait_and_consume, regen,
}
use plazza.Kitchen.Cook.{Cook, to_ingredients}
use plazza.Kitchen.ThreadPool.{
  Place, looping, holding, gathering, baking, announced, leaving, ended, aborted, Worker,
  ThreadPool, stop,
}
use plazza.Kitchen.ThreadPool.Steps.{
  Move, pop, leave, begin, gather, give_up, abort, announce, lose, finish, release, put,
}

-- How many moves a thread can still make before it pops a pizza, at most.
abbrev pub rank_at : Place → ℕ
rank_at looping = 1
rank_at (holding p) = 6
rank_at (gathering p) = 5
rank_at (baking p) = 4
rank_at (announced p) = 3
rank_at leaving = 2
rank_at ended = 0
rank_at aborted = 0

abbrev pub rank : Worker → ℕ
rank w = rank_at w.place

abbrev pub work_left : ThreadPool → ℕ
work_left s = 6 * length s.queue + total rank s.workers

-- A run in which `n` moves of threads are made and no pizza is added.
pub data Run (s : ThreadPool) : ℕ → ThreadPool → Type 0 where
  begun : Run s 0 s
  moved :
      {n : ℕ} {t : ThreadPool} (i : ℕ) (w : Worker) (u : ThreadPool) (c : Cook) (to : Place)
      → Run s n t
      → get_elem? t.workers i ≡ some w
      → Move t w.cook w.place u c to
      → Run s (suc n) (put u i c to)
  stopped : {n : ℕ} {t : ThreadPool} → Run s n t → Run s n (stop t)
  regenerated :
      {n : ℕ} {t : ThreadPool} (stock : IngredientStock)
      → Run s n t
      → regen t.stock ≡ some stock
      → Run s n (record t { stock = stock })

record Spends (s t : ThreadPool) (at to : Place) : Type 0 where
  less : 6 * length t.queue + rank_at to < 6 * length s.queue + rank_at at
  same_workers : t.workers ≡ s.workers

Move-Spends :
    {s t : ThreadPool} {c c' : Cook} {at to : Place} → Move s c at t c' to → Spends s t at to
Move-Spends (pop p rest q) = record { less = omega (arith, ap length q); same_workers = refl }
Move-Spends (leave r q) = record { less = omega arith; same_workers = refl }
Move-Spends (begin p) = record { less = omega arith; same_workers = refl }
Move-Spends (gather p needed stock n w) = record { less = omega arith; same_workers = refl }
Move-Spends (give_up p needed n w) = record { less = omega arith; same_workers = refl }
Move-Spends (abort p e n) = record { less = omega arith; same_workers = refl }
Move-Spends (announce p) = record { less = omega arith; same_workers = refl }
Move-Spends (lose p) = record { less = omega arith; same_workers = refl }
Move-Spends (finish p) = record { less = omega arith; same_workers = refl }
Move-Spends release = record { less = omega arith; same_workers = refl }

pub work_left-put :
    (s t : ThreadPool) (i : ℕ) (w : Worker) (c : Cook) (to : Place)
    → get_elem? s.workers i ≡ some w
    → Move s w.cook w.place t c to
    → work_left (put t i c to) < work_left s
work_left-put s t i w c to at m =
    let spends : Spends s t w.place to = Move-Spends m in
    let new : Worker = record { cook = c; place = to } in
    let at' : get_elem? t.workers i ≡ some w = ap (λ ws. get_elem? ws i) spends.same_workers ∙ at in
    omega
      (arith, spends.less, total-set rank t.workers i new at', ap (total rank) spends.same_workers)

-- While no pizza is added, the threads of a pool together make at most six moves for each pizza in
-- the queue and six for each thread, however they interleave with each other, with `stop` and
-- with the regeneration of the stock: no thread loops for ever.
pub Run-work_left : {s t : ThreadPool} {n : ℕ} → Run s n t → n + work_left t ≤ work_left s
unfolding stop
Run-work_left begun = omega arith
Run-work_left (moved {t = t} i w u c to r at m) =
    omega (arith, Run-work_left r, work_left-put t u i w c to at m)
Run-work_left (stopped r) = Run-work_left r
Run-work_left (regenerated stock r e) = Run-work_left r

-- What a thread of a stopped pool can do next.
pub data Next (s : ThreadPool) (c : Cook) : Place → Type 0 where
  moves : {at : Place} (t : ThreadPool) (c' : Cook) (to : Place) → Move s c at t c' to → Next s c at
  over : Next s c ended
  dead : Next s c aborted
  waits_for_stock :
      (p : PizzaRecipe) (needed : List Ingredient)
      → to_ingredients p.ingredients ≡ ok needed
      → wait_and_consume needed s.stock ≡ waits
      → Next s c (gathering p)

module _ (s : ThreadPool) (c : Cook) (p : PizzaRecipe) where
  gathering-Next_of :
      (needed : List Ingredient)
      → to_ingredients p.ingredients ≡ ok needed
      → (turn : Turn) → wait_and_consume needed s.stock ≡ turn
      → Next s c (gathering p)
  gathering-Next_of needed e waits f = waits_for_stock p needed e f
  gathering-Next_of needed e refused f = moves _ _ _ (give_up p needed e f)
  gathering-Next_of needed e (consumed stock) f = moves _ _ _ (gather p needed stock e f)

  gathering-Next :
      (found : Result (List Ingredient))
      → to_ingredients p.ingredients ≡ found
      → Next s c (gathering p)
  gathering-Next (ok needed) e = gathering-Next_of needed e (wait_and_consume needed s.stock) refl
  gathering-Next (thrown message) e = moves _ _ _ (abort p message e)

looping-Next :
    (s : ThreadPool) (c : Cook) (q : List PizzaRecipe)
    → s.queue ≡ q
    → s.running ≡ false
    → Next s c looping
looping-Next s c [] e h = moves _ _ _ (leave h e)
looping-Next s c (p ∷ rest) e h = moves _ _ _ (pop p rest e)

-- In a stopped pool nothing can hold a thread up but the stock: at every place it can move, unless
-- it has ended, or an exception has left it, or it is in `waitAndConsumeIngredients` and
-- something is missing while the stock runs.
pub place-Next : (s : ThreadPool) (c : Cook) (at : Place) → s.running ≡ false → Next s c at
place-Next s c looping h = looping-Next s c s.queue refl h
place-Next s c (holding p) h = moves _ _ _ (begin p)
place-Next s c (gathering p) h = gathering-Next s c p (to_ingredients p.ingredients) refl
place-Next s c (baking p) h = moves _ _ _ (announce p)
place-Next s c (announced p) h = moves _ _ _ (finish p)
place-Next s c leaving h = moves _ _ _ release
place-Next s c ended h = over
place-Next s c aborted h = dead
