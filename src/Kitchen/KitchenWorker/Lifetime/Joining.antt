-- ===== src/Kitchen/KitchenWorker/Lifetime/Joining.antt =====
-- The threads of a stopped kitchen can always be joined, and without the loss of a pizza.
use plazza.Prelude.{
  ℕ, zero, suc, ◌+◌, ◌-◌, ◌≤◌, ◌<◌, ◌≡◌, ◌≢◌, refl, ap, subst, inl, inr, ◌⊎◌, List, [], ◌∷◌, some,
  arith, get_elem?, length, total-set, total-some, All, All-set, All-get_elem?,
}
use plazza.Pizza.Recipe.{PizzaRecipe}
use plazza.Kitchen.Cook.{Cook}
use plazza.Kitchen.StockGrowth.{Fed, feed}
use plazza.Kitchen.ThreadPool.{
  Place, looping, holding, gathering, baking, announced, leaving, ended, aborted, Worker,
  ThreadPool,
}
use plazza.Kitchen.ThreadPool.Steps.{
  Move, pop, leave, begin, gather, announce, finish, release, put,
}
use plazza.Kitchen.ThreadPool.Draining.{work_left, work_left-put}
use plazza.Kitchen.KitchenWorker.Steps.{dropped}
use plazza.Kitchen.KitchenWorker.Lifetime.{Threads, still, moves, restocks}
use plazza.Kitchen.KitchenWorker.Lifetime.Answered.{IsEnded}
use plazza.Kitchen.KitchenWorker.Lifetime.Ready.{
  IsStocked, CanGoOn, to_gather, to_gather_at, all_to_gather, IsReady, queue-keeps, workers-keep,
  put-IsReady,
}

Threads-trans :
    {s t u : ThreadPool} {lost : List PizzaRecipe}
    → Threads s [] t
    → Threads t lost u
    → Threads s lost u
Threads-trans first still = first
Threads-trans first (moves i w u c to run at move) =
    moves i w u c to (Threads-trans first run) at move
Threads-trans first (restocks stock run e) = restocks stock (Threads-trans first run) e

-- Some thread goes on, with less left to do.
record Advance (s : ThreadPool) : Type 0 where
  after : ThreadPool
  run : Threads s [] after
  ready : IsReady after
  less : work_left after < work_left s

module _ (s : ThreadPool) (v : IsReady s) (i : ℕ) where
  can_go_on : {w : Worker} → get_elem? s.workers i ≡ some w → CanGoOn s.stock.stock w
  can_go_on at = All-get_elem? (CanGoOn s.stock.stock) s.workers i v.threads at

  -- A move that leaves the stock alone and drops nothing.
  move-Advance :
      (w : Worker) (t : ThreadPool) (c : Cook) (to : Place)
      → get_elem? s.workers i ≡ some w
      → (move : Move s w.cook w.place t c to) → dropped move ≡ []
      → t.workers ≡ s.workers
      → t.running ≡ s.running
      → t.stock ≡ s.stock
      → length t.queue + to_gather_at to ≤ length s.queue + to_gather w
      → All (IsStocked t.stock.stock) t.queue
      → CanGoOn t.stock.stock (record { cook = c; place = to })
      → Advance s
  move-Advance w t c to at move none_lost same running stock less queued can = record {
    after = put t i c to;
    run = subst (λ l. Threads s l (put t i c to)) none_lost (moves i w t c to still at move);
    ready = put-IsReady s t i w c to v at same running stock less queued can;
    less = work_left-put s t i w c to at move;
  }

  -- The stock grows, and the cook takes what the pizza needs.
  gather-Advance :
      (c : Cook) (p : PizzaRecipe)
      → get_elem? s.workers i ≡ some (record { cook = c; place = gathering p })
      → Advance s
  gather-Advance c p at =
      let w : Worker = record { cook = c; place = gathering p } in
      let new : Worker = record { cook = c; place = baking p } in
      let can : IsStocked s.stock.stock p = can_go_on at in
      let k : ℕ = all_to_gather s - 1 in
      let some_left : 0 < all_to_gather s = omega (arith, total-some to_gather s.workers i at) in
      let fed : Fed can.needed s.stock k =
        feed can.needed s.stock k v.stock_runs (λ j. omega (arith, v.fits j, some_left)) can.has
          can.once in
      let t : ThreadPool = record s { stock = fed.left } in
      let move : Move (record s { stock = fed.grown }) c (gathering p) t c (baking p) =
        gather p can.needed fed.left can.known fed.eats in
      record {
        after = put t i c (baking p);
        run = moves i w t c (baking p) (restocks fed.grown still fed.regrows) at move;
        ready = record {
          stopped = v.stopped;
          stock_runs = fed.runs;
          fits = λ j. omega (arith, fed.fits j, some_left, total-set to_gather s.workers i new at);
          queued = queue-keeps s.stock.stock fed.left.stock fed.keeps s.queue v.queued;
          threads =
              All-set (CanGoOn fed.left.stock) s.workers i new tt
                (workers-keep s.stock.stock fed.left.stock fed.keeps s.workers v.threads);
        };
        less = work_left-put (record s { stock = fed.grown }) t i w c (baking p) at move;
      }

  loop-Advance :
      (c : Cook) (q : List PizzaRecipe)
      → s.queue ≡ q
      → get_elem? s.workers i ≡ some (record { cook = c; place = looping })
      → Advance s
  loop-Advance c [] e at =
      move-Advance _ s c ended at (leave v.stopped e) refl refl refl refl (omega arith) v.queued tt
  loop-Advance c (p ∷ rest) e at =
      let stocked : All (IsStocked s.stock.stock) (p ∷ rest) =
        subst (All (IsStocked s.stock.stock)) e v.queued in
      move-Advance _ (record s { queue = rest }) c (holding p) at (pop p rest e) refl refl refl refl
        (omega (arith, ap length e)) stocked.1 stocked.0

  advance :
      (c : Cook) (place : Place)
      → get_elem? s.workers i ≡ some (record { cook = c; place = place })
      → place ≢ ended
      → Advance s
  advance c looping at running = loop-Advance c s.queue refl at
  advance c (holding p) at running =
      move-Advance _ s _ _ at (begin p) refl refl refl refl (omega arith) v.queued (can_go_on at)
  advance c (gathering p) at running = gather-Advance c p at
  advance c (baking p) at running =
      move-Advance _ _ _ _ at (announce p) refl refl refl refl (omega arith) v.queued tt
  advance c (announced p) at running =
      move-Advance _ _ _ _ at (finish p) refl refl refl refl (omega arith) v.queued tt
  advance c leaving at running =
      move-Advance _ _ _ _ at release refl refl refl refl (omega arith) v.queued tt
  advance c ended at running = absurd (running refl)
  advance c aborted at running = absurd (can_go_on at)

IsEnded-cases : (w : Worker) → IsEnded w ⊎ (w.place ≢ ended)
IsEnded-cases w = of w.place
  where
    of : (place : Place) → (place ≡ ended) ⊎ (place ≢ ended)
    of ended = inl refl
    of looping = inr (λ e. cc)
    of (holding p) = inr (λ e. cc)
    of (gathering p) = inr (λ e. cc)
    of (baking p) = inr (λ e. cc)
    of (announced p) = inr (λ e. cc)
    of leaving = inr (λ e. cc)
    of aborted = inr (λ e. cc)

-- Some thread has not ended, or all have.
some_left :
    (ws : List Worker)
    → All IsEnded ws ⊎ ((i : ℕ) × (w : Worker) × (get_elem? ws i ≡ some w) × (w.place ≢ ended))
some_left [] = inl tt
some_left (w ∷ ws) = elim (IsEnded-cases w) [
  | inr running ↦ inr (0, w, refl, running)
  | inl e ↦ elim (some_left ws) [
    | inl all ↦ inl (e, all)
    | inr (i, u, at, running) ↦ inr (suc i, u, at, running)
  ]
]

-- The threads come to their ends with no pizza dropped.
pub record IsJoinable (s : ThreadPool) : Type 0 where
  pub joined : ThreadPool
  pub run : Threads s [] joined
  pub ends : All IsEnded joined.workers

joinable : (n : ℕ) (s : ThreadPool) → work_left s ≤ n → IsReady s → IsJoinable s
joinable zero s h v = elim (some_left s.workers) [
  | inl all ↦ record { joined = s; run = still; ends = all }
  | inr (i, w, at, running) ↦
      let a : Advance s = advance s v i w.cook w.place at running in
      absurd (omega (arith, h, a.less))
]
joinable (suc n) s h v = elim (some_left s.workers) [
  | inl all ↦ record { joined = s; run = still; ends = all }
  | inr (i, w, at, running) ↦
      let a : Advance s = advance s v i w.cook w.place at running in
      let later : IsJoinable a.after = joinable n a.after (omega (arith, h, a.less)) a.ready in
      record { joined = later.joined; run = Threads-trans a.run later.run; ends = later.ends }
]

-- The threads of a stopped pool whose stock still runs can all be joined with no pizza dropped,
-- where the stock has an entry for each ingredient of the pizzas that wait or are in hand, no recipe
-- names one twice, no quantity is so near the top of its range that it would pass it by growing once
-- for each of those pizzas, and no exception has left a thread.
pub IsReady-IsJoinable : (s : ThreadPool) → IsReady s → IsJoinable s
IsReady-IsJoinable s v = joinable (work_left s) s (omega arith) v
