-- ===== src/Concurrency/Thread/Joining.antt =====
-- Every thread is joined exactly once, and every callback deleted exactly once.
use plazza.Prelude.{
  ℕ, ◌+◌, ◌≡◌, refl, ap, inl, inr, Bool, true, false, List, [], ◌∷◌, Option, none, some, length,
  ltb, total, total-set, ◌==◌, ==_iff, if◌then◌else◌, arith, Bool-cases, All,
}
use plazza.Errors.{ok, thrown}
use plazza.Concurrency.Places.{at, count, total-move}
use plazza.Concurrency.Thread.{
  Thread, Threads, Operation, construct, move_construct, move_assign, destroy, enter, new_callback,
  delete_callback, construct_at, moved_from, move_construct_at, entry_point, join, move_assign_at,
  destroy_at, operate, operate_all,
}

-- 1 where the object still has to join the thread.
abbrev pub owns : ℕ → Thread → ℕ
owns t p = if p.launched then (if p.thread == t then 1 else 0) else 0

abbrev pub owns_at : ℕ → Option Thread → ℕ
owns_at t none = 0
owns_at t (some p) = owns t p

-- A thread was created as often as it was joined or an object will still join it, and the
-- callbacks on the heap are those of the threads that have not returned.
pub record IsValid (t : ℕ) (s : Threads) : Type 0 where
  pub balanced : count t s.joined + total (owns_at t) s.objects ≡ count t s.created
  pub tidy : s.callbacks + s.finished ≡ length s.created

-- The callback of a thread that enters does not throw.
abbrev pub is_quiet : Operation → Bool
is_quiet (enter (thrown e)) = false
is_quiet o = true

-- The program goes on, in a valid state.
abbrev pub Goes : ℕ → Option Threads → Type 0
Goes t o = (s' : Threads) × (o ≡ some s') × IsValid t s'

module _ (joins : ℕ → Bool) (all_join : (t : ℕ) → joins t ≡ true) (t : ℕ) where
  abbrev joined_log : Thread → List ℕ → List ℕ
  joined_log p log = if p.launched then p.thread ∷ log else log

  join-joins : (p : Thread) (log : List ℕ) → join joins p log ≡ some (joined_log p log)
  unfolding join
  join-joins p log = elim (Bool-cases p.launched) [
    | inl e ↦ rw (e, all_join p.thread) refl
    | inr e ↦ rw e refl
  ]

  count-joined_log :
      (p : Thread) (log : List ℕ) → count t (joined_log p log) ≡ count t log + owns t p
  count-joined_log p log = ground arith

  module _ (s : Threads) (v : IsValid t s) where
    construct_at-IsValid :
        (i : ℕ) (given : Option ℕ) (o : Option (Option Thread))
        → at s.objects i ≡ o
        → IsValid t (construct_at i given o s)
    unfolding construct_at new_callback delete_callback
    construct_at-IsValid i given none e = v
    construct_at-IsValid i given (some (some p)) e = v
    construct_at-IsValid i none (some none) e = record {
      balanced = v.balanced;
      tidy = omega (arith, v.tidy);
    }
    construct_at-IsValid i (some u) (some none) e = record {
      balanced = ground (
        arith,
        v.balanced,
        total-set (owns_at t) s.objects i (some (record { thread = u; launched = true })) e,
      );
      tidy = omega (arith, v.tidy);
    }

    move_construct_at-IsValid :
        (i j : ℕ) (to from : Option (Option Thread))
        → at s.objects i ≡ to
        → at s.objects j ≡ from
        → IsValid t (move_construct_at i j to from s)
    unfolding move_construct_at
    move_construct_at-IsValid i j (some none) (some (some p)) e f = elim (Bool-cases (i == j)) [
      | inl same ↦ absurd (let k = ap (at s.objects) ((==_iff i j).0 same) in cc)
      | inr other ↦ record {
        balanced = omega (
          arith,
          v.balanced,
          total-move (owns_at t) i j s.objects p (moved_from p) none refl other e f,
        );
        tidy = v.tidy;
      }
    ]
    move_construct_at-IsValid i j none from e f = v
    move_construct_at-IsValid i j (some (some old)) from e f = v
    move_construct_at-IsValid i j (some none) none e f = v
    move_construct_at-IsValid i j (some none) (some none) e f = v

    move_assign_at-Goes :
        (i j : ℕ) (to from : Option (Option Thread))
        → at s.objects i ≡ to
        → at s.objects j ≡ from
        → Goes t (move_assign_at joins i j to from s)
    unfolding move_assign_at
    move_assign_at-Goes i j (some (some old)) (some (some p)) e f = elim (Bool-cases (i == j)) [
      | inl same ↦ rw same (s, refl, v)
      | inr other ↦
          rw (other, join-joins old s.joined)
            (
              _,
              refl,
              record {
                balanced = omega (
                  arith,
                  v.balanced,
                  count-joined_log old s.joined,
                  total-move (owns_at t) i j s.objects p (moved_from p) (some old) refl other e f,
                );
                tidy = v.tidy;
              },
            )
    ]
    move_assign_at-Goes i j none from e f = (s, refl, v)
    move_assign_at-Goes i j (some none) from e f = (s, refl, v)
    move_assign_at-Goes i j (some (some old)) none e f = (s, refl, v)
    move_assign_at-Goes i j (some (some old)) (some none) e f = (s, refl, v)

    destroy_at-Goes :
        (i : ℕ) (o : Option (Option Thread)) → at s.objects i ≡ o → Goes t (destroy_at joins i o s)
    unfolding destroy_at
    destroy_at-Goes i none e = (s, refl, v)
    destroy_at-Goes i (some none) e = (s, refl, v)
    destroy_at-Goes i (some (some p)) e = rw (join-joins p s.joined) (
      _,
      refl,
      record {
        balanced = omega (
          arith,
          v.balanced,
          count-joined_log p s.joined,
          total-set (owns_at t) s.objects i none e,
        );
        tidy = v.tidy;
      },
    )

    operate-Goes : (o : Operation) → is_quiet o ≡ true → Goes t (operate joins o s)
    unfolding operate entry_point delete_callback
    operate-Goes (construct i given) q =
        (_, refl, construct_at-IsValid i given (at s.objects i) refl)
    operate-Goes (move_construct i j) q =
        (_, refl, move_construct_at-IsValid i j (at s.objects i) (at s.objects j) refl refl)
    operate-Goes (move_assign i j) q =
        move_assign_at-Goes i j (at s.objects i) (at s.objects j) refl refl
    operate-Goes (destroy i) q = destroy_at-Goes i (at s.objects i) refl
    operate-Goes (enter (thrown e)) q = absurd (cc)
    operate-Goes (enter (ok u)) q = elim (Bool-cases (ltb s.finished (length s.created))) [
      | inl e ↦ rw e (_, refl, record { balanced = v.balanced; tidy = ground (arith, v.tidy) })
      | inr e ↦ rw e (s, refl, v)
    ]

  -- Where pthread_join succeeds and no callback throws, no operation ends the program; and
  -- however it constructs, moves and destroys its objects, a thread is created as often as it is
  -- joined, plus the objects that will still join it, and the callbacks on the heap are those of
  -- the threads that have not returned.
  pub operate_all-Goes :
      (operations : List Operation) (s : Threads)
      → All (λ o. is_quiet o ≡ true) operations
      → IsValid t s
      → Goes t (operate_all joins operations s)
  unfolding operate_all
  operate_all-Goes [] s q v = (s, refl, v)
  operate_all-Goes (o ∷ operations) s q v =
      let (s', e, v') = operate-Goes s v o q.0 in rw e (operate_all-Goes operations s' q.1 v')
