-- ===== src/Kitchen/KitchenWorker/Lifetime/Ready.antt =====
-- A stopped pool that has all that it needs to bake its last pizzas.
use plazza.Prelude.{
  ℕ, ◌+◌, ◌≤◌, ◌≡◌, sym, ap, ◌∙◌, subst, true, false, List, [], ◌∷◌, some, arith, get_elem?, total,
  total-set, All, All-set, length,
}
use plazza.Errors.{ok}
use plazza.Pizza.Recipe.{PizzaRecipe}
use plazza.Kitchen.Cook.{Cook, to_ingredients}
use plazza.Kitchen.Ingredient.{Ingredient, Stock}
use plazza.Kitchen.StockLaws.{count, quantity}
use plazza.Kitchen.StockGrowth.{Has, Fits}
use plazza.Kitchen.ThreadPool.{
  Place, looping, holding, gathering, baking, announced, leaving, ended, aborted, Worker,
  ThreadPool,
}
use plazza.Kitchen.ThreadPool.Steps.{put}

-- The stock has an entry for each ingredient of the recipe, which names none twice.
pub record IsStocked (stock : Stock) (recipe : PizzaRecipe) : Type 0 where
  pub needed : List Ingredient
  pub known : to_ingredients recipe.ingredients ≡ ok needed
  pub once : (i : Ingredient) → count i needed ≤ 1
  pub has : All (Has stock) needed

-- No exception has left the thread, and the stock has the ingredients of a pizza that it has.
abbrev pub CanGoOn : Stock → Worker → Type 0
CanGoOn stock w = elim w.place [
  | holding p ↦ IsStocked stock p
  | gathering p ↦ IsStocked stock p
  | aborted ↦ ⊥
  | _ ↦ Unit
]

-- 1 where the thread has still to take ingredients for a pizza that it has.
abbrev pub to_gather_at : Place → ℕ
to_gather_at (holding p) = 1
to_gather_at (gathering p) = 1
to_gather_at _ = 0

abbrev pub to_gather : Worker → ℕ
to_gather w = to_gather_at w.place

abbrev pub all_to_gather : ThreadPool → ℕ
all_to_gather pool = length pool.queue + total to_gather pool.workers

-- The pool is stopped and its stock is not; the threads can go on; and no quantity comes to the top
-- of its range if the stock grows once for each pizza.
pub record IsReady (pool : ThreadPool) : Type 0 where
  pub stopped : pool.running ≡ false
  pub stock_runs : pool.stock.running ≡ true
  pub fits : Fits (all_to_gather pool) pool.stock.stock
  pub queued : All (IsStocked pool.stock.stock) pool.queue
  pub threads : All (CanGoOn pool.stock.stock) pool.workers

-- What goes on in the stock keeps its entries.
module _ (stock stock' : Stock) (keeps : (i : Ingredient) → Has stock i → Has stock' i) where
  All-Has : (needed : List Ingredient) → All (Has stock) needed → All (Has stock') needed
  All-Has [] h = tt
  All-Has (i ∷ needed) (h, hs) = (keeps i h, All-Has needed hs)

  IsStocked-keeps : (recipe : PizzaRecipe) → IsStocked stock recipe → IsStocked stock' recipe
  IsStocked-keeps recipe v = record {
    needed = v.needed;
    known = v.known;
    once = v.once;
    has = All-Has v.needed v.has;
  }

  CanGoOn-keeps :
      (cook : Cook) (place : Place)
      → CanGoOn stock (record { cook = cook; place = place })
      → CanGoOn stock' (record { cook = cook; place = place })
  CanGoOn-keeps cook looping h = h
  CanGoOn-keeps cook (holding p) h = IsStocked-keeps p h
  CanGoOn-keeps cook (gathering p) h = IsStocked-keeps p h
  CanGoOn-keeps cook (baking p) h = h
  CanGoOn-keeps cook (announced p) h = h
  CanGoOn-keeps cook leaving h = h
  CanGoOn-keeps cook ended h = h
  CanGoOn-keeps cook aborted h = h

  pub queue-keeps : (ps : List PizzaRecipe) → All (IsStocked stock) ps → All (IsStocked stock') ps
  queue-keeps [] h = tt
  queue-keeps (p ∷ ps) (h, hs) = (IsStocked-keeps p h, queue-keeps ps hs)

  pub workers-keep : (ws : List Worker) → All (CanGoOn stock) ws → All (CanGoOn stock') ws
  workers-keep [] h = tt
  workers-keep (w ∷ ws) (h, hs) = (CanGoOn-keeps w.cook w.place h, workers-keep ws hs)

-- A thread has gone on: the pool behind it is ready where the queue and the stock are.
pub put-IsReady :
    (s t : ThreadPool) (i : ℕ) (w : Worker) (c : Cook) (to : Place)
    → IsReady s
    → get_elem? s.workers i ≡ some w
    → t.workers ≡ s.workers
    → t.running ≡ s.running
    → t.stock ≡ s.stock
    → length t.queue + to_gather_at to ≤ length s.queue + to_gather w
    → All (IsStocked t.stock.stock) t.queue
    → CanGoOn t.stock.stock (record { cook = c; place = to })
    → IsReady (put t i c to)
put-IsReady s t i w c to v at same running stock less queued can =
    let new : Worker = record { cook = c; place = to } in
    let at' : get_elem? t.workers i ≡ some w = ap (λ ws. get_elem? ws i) same ∙ at in
    let fewer : all_to_gather (put t i c to) ≤ all_to_gather s =
      omega (arith, less, total-set to_gather t.workers i new at', ap (total to_gather) same) in
    record {
      stopped = running ∙ v.stopped;
      stock_runs = ap (λ st. st.running) stock ∙ v.stock_runs;
      fits = λ j. omega (arith, fewer, v.fits j, ap (λ st. quantity j st.stock) stock);
      queued = queued;
      threads = All-set (CanGoOn t.stock.stock) t.workers i new can (
          subst (All (CanGoOn t.stock.stock)) (sym same)
            (subst (λ st. All (CanGoOn st.stock) s.workers) (sym stock) v.threads));
    }
