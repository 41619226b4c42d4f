-- ===== src/Kitchen/ThreadPool/Destruction/Faults.antt =====
-- What the threads of a pool do to members that the destructor has already destroyed.
use plazza.Prelude.{
  ℕ, ◌+◌, ◌*◌, ◌≢◌, ◌≤◌, ◌≡◌, refl, ap, ◌∙◌, sym, subst, inl, inr, ◌⊎◌, List, [], ◌∷◌, arith, total,
  total-some,
}
use plazza.Kitchen.ThreadPool.{ThreadPool}
use plazza.Kitchen.ThreadPool.Destruction.{
  Member, cook_deque, thread_vector, pizza_queue, queue_mutex, condition_variable,
  destruction_order, Closing, without_mutex, locks, Run, begun, destroys, joins, works,
}
use plazza.Kitchen.ThreadPool.Destruction.Ending.{
  unended, Ends, Move-Ends, work-unended, All-unended,
}

-- 1 where the vector of threads is still there.
abbrev with_threads : List Member → ℕ
with_threads [] = 0
with_threads (thread_vector ∷ ms) = 1
with_threads (cook_deque ∷ ms) = with_threads ms
with_threads (queue_mutex ∷ ms) = with_threads ms
with_threads (pizza_queue ∷ ms) = with_threads ms
with_threads (condition_variable ∷ ms) = with_threads ms

without_mutex-tail :
    (m : Member) (ms : List Member) → without_mutex (m ∷ ms) ≡ 1 → without_mutex ms ≡ 1
without_mutex-tail queue_mutex ms h = absurd (cc)
without_mutex-tail cook_deque ms h = h
without_mutex-tail thread_vector ms h = h
without_mutex-tail pizza_queue ms h = h
without_mutex-tail condition_variable ms h = h

with_threads-tail :
    (m : Member) (ms : List Member) → m ≢ thread_vector → with_threads (m ∷ ms) ≡ with_threads ms
with_threads-tail thread_vector ms h = absurd (h refl)
with_threads-tail cook_deque ms h = refl
with_threads-tail queue_mutex ms h = refl
with_threads-tail pizza_queue ms h = refl
with_threads-tail condition_variable ms h = refl

-- Once the mutex is gone, each thread that ends costs a lock of it; and once the threads are joined
-- none is left.
record Costs (s : Closing) (n : ℕ) (t : Closing) : Type 0 where
  no_mutex : without_mutex t.left ≡ 1
  paid : total unended s.pool.workers ≤ n + total unended t.pool.workers
  joined : with_threads t.left ≡ 0 → total unended t.pool.workers ≡ 0

Run-Costs :
    {s t : Closing} {n : ℕ}
    → Run s n t
    → without_mutex s.left ≡ 1
    → with_threads s.left ≡ 1
    → Costs s n t
Run-Costs begun m h = record {
  no_mutex = m;
  paid = omega arith;
  joined = λ e. absurd (omega (arith, e, h));
}
Run-Costs (destroys {n} {t} x rest run left other) m h =
    let v = Run-Costs run m h in
    record {
      no_mutex = without_mutex-tail x rest (ap without_mutex (sym left) ∙ v.no_mutex);
      paid = v.paid;
      joined = λ e. v.joined (ap with_threads left ∙ with_threads-tail x rest other ∙ e);
    }
Run-Costs (joins {n} {t} rest run left all) m h =
    let v = Run-Costs run m h in
    record {
      no_mutex = without_mutex-tail thread_vector rest (ap without_mutex (sym left) ∙ v.no_mutex);
      paid = v.paid;
      joined = λ e. All-unended t.pool.workers all;
    }
Run-Costs (works {n} {t} i w u c to run at move) m h =
    let v = Run-Costs run m h in
    let ends : Ends t.pool u w.place to = Move-Ends move in
    record {
      no_mutex = v.no_mutex;
      paid = omega (
        arith,
        v.paid,
        work-unended t.pool u i w c to at move,
        ap (λ gone. gone * locks w.place) v.no_mutex,
      );
      joined =
          λ e. absurd (omega (arith, v.joined e, ends.one, total-some unended t.pool.workers i at));
    }

-- The destructor only goes on along its order.
abbrev IsPart : List Member → List Member → Type 0
IsPart ms [] = ms ≡ []
IsPart ms (x ∷ xs) = (ms ≡ x ∷ xs) ⊎ IsPart ms xs

IsPart-self : (ms : List Member) → IsPart ms ms
IsPart-self [] = refl
IsPart-self (m ∷ ms) = inl refl

IsPart-tail : (m : Member) (ms order : List Member) → IsPart (m ∷ ms) order → IsPart ms order
IsPart-tail m ms [] e = absurd (cc)
IsPart-tail m ms (x ∷ xs) (inl e) =
    let same : ms ≡ xs = cc in inr (subst (λ l. IsPart l xs) (sym same) (IsPart-self xs))
IsPart-tail m ms (x ∷ xs) (inr later) = inr (IsPart-tail m ms xs later)

Run-IsPart :
    {s t : Closing} {n : ℕ} (order : List Member)
    → Run s n t
    → IsPart s.left order
    → IsPart t.left order
Run-IsPart order begun h = h
Run-IsPart order (destroys x rest run left other) h =
    IsPart-tail x rest order (subst (λ ms. IsPart ms order) left (Run-IsPart order run h))
Run-IsPart order (joins rest run left all) h =
    IsPart-tail thread_vector rest order
      (subst (λ ms. IsPart ms order) left (Run-IsPart order run h))
Run-IsPart order (works i w u c to run at move) h = Run-IsPart order run h

-- What is left when the queue comes next.
at_queue :
    (ms rest : List Member)
    → ms ≡ pizza_queue ∷ rest
    → IsPart ms destruction_order
    → ms ≡ pizza_queue ∷ thread_vector ∷ cook_deque ∷ []
unfolding destruction_order
at_queue ms rest e (inl f) = absurd (cc)
at_queue ms rest e (inr (inl f)) = absurd (cc)
at_queue ms rest e (inr (inr (inl f))) = f
at_queue ms rest e (inr (inr (inr (inl f)))) = absurd (cc)
at_queue ms rest e (inr (inr (inr (inr (inl f))))) = absurd (cc)
at_queue ms rest e (inr (inr (inr (inr (inr f))))) = absurd (cc)

-- However the threads of a pool interleave with its destructor, where the destructor comes to an
-- end, the threads have locked a mutex that was already destroyed at least once for each thread that
-- had not ended when the destructor had destroyed the mutex and came to the queue: no run of the
-- destructor is sound unless all threads have ended before.
pub Run-faults :
    (pool : ThreadPool) {s t : Closing} {early late : ℕ} (rest : List Member)
    → Run (record { pool = pool; left = destruction_order }) early s
    → s.left ≡ pizza_queue ∷ rest
    → Run s late t
    → t.left ≡ []
    → total unended s.pool.workers ≤ late
Run-faults pool {s} {t} rest before queue after over =
    let left : s.left ≡ pizza_queue ∷ thread_vector ∷ cook_deque ∷ [] =
      at_queue s.left rest queue
        (Run-IsPart destruction_order before (IsPart-self destruction_order)) in
    let costs = Run-Costs after (ap without_mutex left) (ap with_threads left) in
    omega (arith, costs.paid, costs.joined (ap with_threads over))

-- Where all threads have ended before, the destructor locks no mutex that it has destroyed.
pub Run-sound :
    (pool : ThreadPool) {t : Closing} {n : ℕ}
    → total unended pool.workers ≡ 0
    → Run (record { pool = pool; left = destruction_order }) n t
    → (n ≡ 0) × (total unended t.pool.workers ≡ 0)
Run-sound pool none_left begun = (refl, none_left)
Run-sound pool none_left (destroys m rest run left other) = Run-sound pool none_left run
Run-sound pool none_left (joins rest run left all) = Run-sound pool none_left run
Run-sound pool none_left (works {t = t} i w u c to run at move) =
    let ends : Ends t.pool u w.place to = Move-Ends move in
    absurd (
      omega
        (arith, (Run-sound pool none_left run).1, ends.one, total-some unended t.pool.workers i at))
