-- ===== src/Kitchen/KitchenWorker/Lifetime/Passing.antt =====
-- What the loop of a kitchen keeps: the account of its pizzas, and threads that have not ended.
use plazza.Prelude.{
  total-append, ℕ, ◌+◌, ◌≡◌, refl, ap, ◌∙◌, inl, inr, ◌⊎◌, true, false, List, [], ◌++◌, some,
  get_elem?, total, total-set, arith,
}
use plazza.Pizza.{Pizza}
use plazza.Pizza.Recipe.{PizzaRecipe}
use plazza.Pizza.FactoryLaws.{IsBuiltIn}
use plazza.Ipc.{Packet}
use plazza.Kitchen.Cook.{Cook}
use plazza.Kitchen.ThreadPool.{Place, ended, Worker, ThreadPool}
use plazza.Kitchen.ThreadPool.Steps.{
  Move, pop, leave, begin, gather, give_up, abort, announce, lose, finish, release, put,
}
use plazza.Kitchen.KitchenWorker.{KitchenWorker}
use plazza.Kitchen.KitchenWorker.Steps.{dropped}
use plazza.Kitchen.KitchenWorker.Weights.{
  ordered_in, of_recipe, held, answered, in_work, work-keeps,
}
use plazza.Kitchen.KitchenWorker.Lifetime.{Threads, still, moves, restocks}

-- 1 where the thread has ended.
abbrev pub gone_at : Place → ℕ
gone_at ended = 1
gone_at _ = 0

abbrev pub gone : Worker → ℕ
gone w = gone_at w.place

-- The pool runs, and none of its threads has ended.
pub record IsRunning (pool : ThreadPool) : Type 0 where
  pub runs : pool.running ≡ true
  pub none_gone : total gone pool.workers ≡ 0

-- A thread ends only in a pool that is stopped and has an empty queue.
pub record Leaves (s t : ThreadPool) (at to : Place) : Type 0 where
  pub same_running : t.running ≡ s.running
  pub same_workers : t.workers ≡ s.workers
  pub only_then : (gone_at to ≡ 0) ⊎ ((s.running ≡ false) × (t.queue ≡ []))
  pub stays_empty : s.queue ≡ [] → t.queue ≡ []

Leaves-same :
    {s t : ThreadPool} {at to : Place}
    → t.running ≡ s.running
    → t.workers ≡ s.workers
    → t.queue ≡ s.queue
    → gone_at to ≡ 0
    → Leaves s t at to
Leaves-same r w q g = record {
  same_running = r;
  same_workers = w;
  only_then = inl g;
  stays_empty = λ e. q ∙ e;
}

pub Move-Leaves :
    {s t : ThreadPool} {c c' : Cook} {at to : Place} → Move s c at t c' to → Leaves s t at to
Move-Leaves (pop p rest q) = record {
  same_running = refl;
  same_workers = refl;
  only_then = inl refl;
  stays_empty = λ e. absurd (cc);
}
Move-Leaves (leave r q) = record {
  same_running = refl;
  same_workers = refl;
  only_then = inr (r, q);
  stays_empty = λ e. e;
}
Move-Leaves (begin p) = Leaves-same refl refl refl refl
Move-Leaves (gather p needed stock n w) = Leaves-same refl refl refl refl
Move-Leaves (give_up p needed n w) = Leaves-same refl refl refl refl
Move-Leaves (abort p e n) = Leaves-same refl refl refl refl
Move-Leaves (announce p) = Leaves-same refl refl refl refl
Move-Leaves (lose p) = Leaves-same refl refl refl refl
Move-Leaves (finish p) = Leaves-same refl refl refl refl
Move-Leaves release = Leaves-same refl refl refl refl

pub total-gone :
    (s t : ThreadPool) (i : ℕ) (w : Worker) (c : Cook) (to : Place)
    → get_elem? s.workers i ≡ some w
    → t.workers ≡ s.workers
    → gone_at to ≡ 0
    → total gone s.workers ≡ 0
    → total gone (put t i c to).workers ≡ 0
total-gone s t i w c to at same stays none_gone =
    let new : Worker = record { cook = c; place = to } in
    let at' : get_elem? t.workers i ≡ some w = ap (λ ws. get_elem? ws i) same ∙ at in
    omega (arith, stays, none_gone, total-set gone t.workers i new at', ap (total gone) same)

pub Threads-IsRunning :
    {s t : ThreadPool} {lost : List PizzaRecipe} → Threads s lost t → IsRunning s → IsRunning t
Threads-IsRunning still v = v
Threads-IsRunning (moves {t = t} i w u c to run at move) v =
    let here : IsRunning t = Threads-IsRunning run v in
    let leaves : Leaves t u w.place to = Move-Leaves move in
    elim leaves.only_then [
      | inl stays ↦ record {
        runs = leaves.same_running ∙ here.runs;
        none_gone = total-gone t u i w c to at leaves.same_workers stays here.none_gone;
      }
      | inr (stopped, e) ↦ let runs = here.runs in absurd (cc)
    ]
Threads-IsRunning (restocks stock run e) v =
    let here = Threads-IsRunning run v in record { runs = here.runs; none_gone = here.none_gone }

module _ (f : Pizza → ℕ) where
  pub Threads-keeps :
      {s t : ThreadPool} {lost : List PizzaRecipe}
      → Threads s lost t
      → answered f t + in_work f t + total (of_recipe f) lost ≡ answered f s + in_work f s
  Threads-keeps still = omega arith
  Threads-keeps (moves {lost} {t} i w u c to run at move) = omega (
    arith,
    Threads-keeps run,
    work-keeps f t u i w c to at move,
    total-append (of_recipe f) lost (dropped move),
  )
  Threads-keeps (restocks stock run e) = Threads-keeps run

  -- From `s` on the kitchen has received `taken` and dropped `lost`, and its loop can go on.
  pub record Kept (s : KitchenWorker) (taken : List Packet) (lost : List PizzaRecipe)
      (t : KitchenWorker) : Type 0 where
    pub weight : held f t + total (of_recipe f) lost ≡ held f s + total (ordered_in f) taken
    pub built : IsBuiltIn s.registry → IsBuiltIn t.registry
    pub running : IsRunning s.pool → IsRunning t.pool

  pub Kept-trans :
      {s t u : KitchenWorker} {taken more : List Packet} {lost fewer : List PizzaRecipe}
      → Kept s taken lost t
      → Kept t more fewer u
      → Kept s (taken ++ more) (lost ++ fewer) u
  Kept-trans {taken = taken} {more} {lost} {fewer} h k = record {
    weight = omega (
      arith,
      h.weight,
      k.weight,
      total-append (ordered_in f) taken more,
      total-append (of_recipe f) lost fewer,
    );
    built = λ b. k.built (h.built b);
    running = λ r. k.running (h.running r);
  }
