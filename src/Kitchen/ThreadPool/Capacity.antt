-- ===== src/Kitchen/ThreadPool/Capacity.antt =====
-- The load of a thread pool: what it counts, and its bound.
use plazza.Prelude.{
  ℕ, zero, suc, ◌+◌, ◌*◌, ◌^◌, ◌≤◌, ◌<◌, ◌≡◌, refl, sym, ap, ◌∙◌, inl, inr, List, [], ◌∷◌, ◌++◌,
  some, arith, length, All, All-set, All-get_elem?, get_elem?, total, total-set, total-some, leb,
  subst, Bool-cases,
}
use plazza.Pizza.Recipe.{PizzaRecipe}
use plazza.Kitchen.IngredientStock.{IngredientStock}
use plazza.Kitchen.Cook.{Cook, begin_cooking, end_cooking, idle, cooking}
use plazza.Kitchen.ThreadPool.{
  Place, looping, holding, gathering, baking, announced, leaving, ended, aborted, Worker,
  ThreadPool, launch, hire, start, is_full, add_pizza, stop,
}
use plazza.Kitchen.ThreadPool.Steps.{
  Move, pop, leave, begin, gather, give_up, abort, announce, lose, finish, release, put, Step, work,
  add, stops, regenerate, Reach, here, next,
}

-- 1 where the thread owes the pool a `--_load`.
abbrev pub owed_at : Place → ℕ
owed_at looping = 0
owed_at (holding p) = 1
owed_at (gathering p) = 1
owed_at (baking p) = 1
owed_at (announced p) = 1
owed_at leaving = 1
owed_at ended = 0
owed_at aborted = 1

abbrev pub owed : Worker → ℕ
owed w = owed_at w.place

abbrev pub state_at : Place → ℕ
state_at (gathering p) = cooking
state_at (baking p) = cooking
state_at (announced p) = cooking
state_at _ = idle

abbrev pub ShowsItsPlace : Worker → Type 0
ShowsItsPlace w = w.cook.state ≡ state_at w.place

-- The load counts the pizzas that wait and those that a thread has taken and not yet released; it
-- stays within the capacity; and each cook shows that it cooks exactly from the start of
-- `cookPizza` to its end.
pub record IsValid (s : ThreadPool) : Type 0 where
  pub counted : s.load ≡ length s.queue + total owed s.workers
  pub bounded : s.load ≤ s.max_capacity
  pub fits : s.max_capacity < 2 ^ 64
  pub shown : All ShowsItsPlace s.workers

hire-idle :
    (id n : ℕ) → (total owed (launch (hire id n)) ≡ 0) × All ShowsItsPlace (launch (hire id n))
unfolding hire launch
hire-idle id zero = (refl, tt)
hire-idle id (suc n) = let rest = hire-idle (suc id) n in (omega (arith, rest.0), (refl, rest.1))

pub start-IsValid : (n : ℕ) (stock : IngredientStock) → 2 * n < 2 ^ 64 → IsValid (start n stock)
unfolding start
start-IsValid n stock h = record {
  counted = omega (arith, (hire-idle 0 n).0);
  bounded = omega arith;
  fits = omega arith;
  shown = (hire-idle 0 n).1;
}

length-last : (q : List PizzaRecipe) (p : PizzaRecipe) → length (q ++ (p ∷ [])) ≡ length q + 1
length-last [] p = refl
length-last (x ∷ q) p = omega (arith, length-last q p)

pub add_pizza-IsValid : (p : PizzaRecipe) (s : ThreadPool) → IsValid s → IsValid (add_pizza p s).0
unfolding add_pizza is_full
add_pizza-IsValid p s v = elim (Bool-cases (leb s.max_capacity s.load)) [
  | inl e ↦ rw e v
  | inr e ↦
      let room : s.load < s.max_capacity = ground arith in
      rw e (record {
        counted = omega (arith, v.counted, v.fits, length-last s.queue p);
        bounded = omega (arith, v.fits);
        fits = v.fits;
        shown = v.shown;
      })
]

-- What one move does to the counters of the pool and to the cook that makes it.
record Moved (s t : ThreadPool) (c c' : Cook) (at to : Place) : Type 0 where
  balance : t.load + length s.queue + owed_at at ≡ s.load + length t.queue + owed_at to
  no_more : t.load ≤ s.load
  same_capacity : t.max_capacity ≡ s.max_capacity
  same_workers : t.workers ≡ s.workers
  shows : c.state ≡ state_at at → c'.state ≡ state_at to

module _ {s t : ThreadPool} {c c' : Cook} {at to : Place} where
  same_load :
      t.load ≡ s.load
      → t.queue ≡ s.queue
      → t.max_capacity ≡ s.max_capacity
      → t.workers ≡ s.workers
      → owed_at at ≡ owed_at to
      → (c.state ≡ state_at at → c'.state ≡ state_at to)
      → Moved s t c c' at to
  same_load l q m w o shows = record {
    balance = omega (arith, ap length q);
    no_more = omega arith;
    same_capacity = m;
    same_workers = w;
    shows = shows;
  }

Move-Moved :
    {s t : ThreadPool} {c c' : Cook} {at to : Place}
    → Move s c at t c' to
    → owed_at at ≤ s.load
    → s.load < 2 ^ 64
    → Moved s t c c' at to
unfolding begin_cooking end_cooking
Move-Moved (pop p rest q) h k = record {
  balance = omega (arith, ap length q);
  no_more = omega arith;
  same_capacity = refl;
  same_workers = refl;
  shows = λ e. e;
}
Move-Moved (leave r q) h k = same_load refl refl refl refl refl (λ e. e)
Move-Moved (begin p) h k = same_load refl refl refl refl refl (λ e. refl)
Move-Moved (gather p needed stock n w) h k = same_load refl refl refl refl refl (λ e. e)
Move-Moved (give_up p needed n w) h k = same_load refl refl refl refl refl (λ e. refl)
Move-Moved (abort p e n) h k = same_load refl refl refl refl refl (λ e. refl)
Move-Moved (announce p) h k = same_load refl refl refl refl refl (λ e. e)
Move-Moved (lose p) h k = same_load refl refl refl refl refl (λ e. refl)
Move-Moved (finish p) h k = same_load refl refl refl refl refl (λ e. refl)
Move-Moved release h k = record {
  balance = omega arith;
  no_more = omega arith;
  same_capacity = refl;
  same_workers = refl;
  shows = λ e. e;
}

pub work-IsValid :
    (s t : ThreadPool) (i : ℕ) (w : Worker) (c : Cook) (to : Place)
    → get_elem? s.workers i ≡ some w
    → Move s w.cook w.place t c to
    → IsValid s
    → IsValid (put t i c to)
work-IsValid s t i w c to at m v =
    let own = total-some owed s.workers i at in
    let moved : Moved s t w.cook c w.place to =
      Move-Moved m (omega (arith, v.counted, own)) (omega (arith, v.bounded, v.fits)) in
    let new : Worker = record { cook = c; place = to } in
    let at' : get_elem? t.workers i ≡ some w = ap (λ ws. get_elem? ws i) moved.same_workers ∙ at in
    record {
      counted = omega (
        arith,
        v.counted,
        moved.balance,
        total-set owed t.workers i new at',
        ap (total owed) moved.same_workers,
      );
      bounded = omega (arith, v.bounded, moved.no_more, moved.same_capacity);
      fits = omega (arith, v.fits, moved.same_capacity);
      shown =
          All-set ShowsItsPlace t.workers i new
            (moved.shows (All-get_elem? ShowsItsPlace s.workers i v.shown at))
            (subst (All ShowsItsPlace) (sym moved.same_workers) v.shown);
    }

-- The invariant reads the capacity, the workers, the queue and the load.
pub same-IsValid :
    {s t : ThreadPool}
    → t.max_capacity ≡ s.max_capacity
    → t.workers ≡ s.workers
    → t.queue ≡ s.queue
    → t.load ≡ s.load
    → IsValid s
    → IsValid t
same-IsValid {s} {t} m w q l v = record {
  counted = omega (arith, v.counted, ap length q, ap (total owed) w);
  bounded = omega (arith, v.bounded);
  fits = omega (arith, v.fits);
  shown = subst (All ShowsItsPlace) (sym w) v.shown;
}

Step-IsValid : {s t : ThreadPool} → Step s t → IsValid s → IsValid t
unfolding stop
Step-IsValid {s} (work i w t c place at m) v = work-IsValid s t i w c place at m v
Step-IsValid {s} (add p) v = add_pizza-IsValid p s v
Step-IsValid stops v = same-IsValid refl refl refl refl v
Step-IsValid (regenerate stock r) v = same-IsValid refl refl refl refl v

-- Where twice the number of cooks fits a std::size_t, from its start on, whatever its threads, the
-- kitchen's main loop and the regeneration do, in any order, the load of a pool is the number of
-- pizzas that wait in its queue and of those that a cook has in hand; it never passes the capacity;
-- and a cook shows COOKING exactly while it is inside `cookPizza`.
pub Reach-IsValid :
    (n_cooks : ℕ) (stock : IngredientStock)
    → 2 * n_cooks < 2 ^ 64
    → {s : ThreadPool} → Reach (start n_cooks stock) s
    → IsValid s
Reach-IsValid n_cooks stock h here = start-IsValid n_cooks stock h
Reach-IsValid n_cooks stock h (next r step) = Step-IsValid step (Reach-IsValid n_cooks stock h r)
