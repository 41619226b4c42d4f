-- ===== src/Kitchen/ThreadPool/Steps.antt =====
-- The steps of a thread pool.
use plazza.Prelude.{ℕ, ◌+◌, ◌-◌, ◌^◌, ◌%◌, ◌≡◌, false, List, [], ◌∷◌, ◌++◌, some, get_elem?, set}
use plazza.Errors.{ok, thrown}
use plazza.Pizza.Recipe.{PizzaRecipe}
use plazza.Kitchen.Ingredient.{Ingredient}
use plazza.Kitchen.IngredientStock.{IngredientStock, consumed, refused, wait_and_consume, regen}
use plazza.Kitchen.Cook.{Cook, to_ingredients, begin_cooking, end_cooking, done_packet}
use plazza.Kitchen.ThreadPool.{
  Place, looping, holding, gathering, baking, announced, leaving, ended, aborted, Worker,
  ThreadPool, add_pizza, stop,
}

-- `--_load`, on a std::size_t.
abbrev pub one_less : ℕ → ℕ
one_less n = (n + (2 ^ 64 - 1)) % 2 ^ 64

-- A step of the thread of one cook: the pool, and the cook and the place of the thread, after it.
pub data Move (s : ThreadPool) (c : Cook) : Place → ThreadPool → Cook → Place → Type 0 where
  pop :
      (p : PizzaRecipe) (rest : List PizzaRecipe)
      → s.queue ≡ p ∷ rest
      → Move s c looping (record s { queue = rest }) c (holding p)
  leave : s.running ≡ false → s.queue ≡ [] → Move s c looping s c ended
  begin : (p : PizzaRecipe) → Move s c (holding p) s (begin_cooking p c) (gathering p)
  gather :
      (p : PizzaRecipe) (needed : List Ingredient) (stock : IngredientStock)
      → to_ingredients p.ingredients ≡ ok needed
      → wait_and_consume needed s.stock ≡ consumed stock
      → Move s c (gathering p) (record s { stock = stock }) c (baking p)
  give_up :
      (p : PizzaRecipe) (needed : List Ingredient)
      → to_ingredients p.ingredients ≡ ok needed
      → wait_and_consume needed s.stock ≡ refused
      → Move s c (gathering p) s (end_cooking c) leaving
  abort :
      (p : PizzaRecipe) (e : List ℕ)
      → to_ingredients p.ingredients ≡ thrown e
      → Move s c (gathering p) s (end_cooking c) aborted
  announce :
      (p : PizzaRecipe)
      → Move s c
          (baking p)
          (record s { results = s.results ++ (done_packet p ∷ []) })
          c
          (announced p)
  lose : (p : PizzaRecipe) → Move s c (baking p) s (end_cooking c) aborted  -- `send` throws
  finish : (p : PizzaRecipe) → Move s c (announced p) s (end_cooking c) leaving
  release : Move s c leaving (record s { load = one_less s.load }) c looping

-- The thread of cook `i` steps.
abbrev pub put : ThreadPool → ℕ → Cook → Place → ThreadPool
put s i c place = record s { workers = set s.workers i (record { cook = c; place = place }) }

pub data Step (s : ThreadPool) : ThreadPool → Type 0 where
  work :
      (i : ℕ) (w : Worker) (t : ThreadPool) (c : Cook) (place : Place)
      → get_elem? s.workers i ≡ some w
      → Move s w.cook w.place t c place
      → Step s (put t i c place)
  add : (p : PizzaRecipe) → Step s (add_pizza p s).0
  stops : Step s (stop s)
  regenerate :
      (stock : IngredientStock) → regen s.stock ≡ some stock → Step s (record s { stock = stock })

pub data Reach (s : ThreadPool) : ThreadPool → Type 0 where
  here : Reach s s
  next : {t u : ThreadPool} → Reach s t → Step t u → Reach s u
