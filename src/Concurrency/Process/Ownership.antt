-- ===== src/Concurrency/Process/Ownership.antt =====
-- Every child is waited for exactly once.
use plazza.Prelude.{
  ℕ, ◌+◌, ◌≡◌, refl, ap, inl, inr, false, not, List, [], ◌∷◌, Option, none, some, total, total-set,
  ◌==◌, ==_iff, if◌then◌else◌, arith, Bool-cases,
}
use plazza.Concurrency.Places.{at, count, total-move}
use plazza.Concurrency.Process.{
  Process, Processes, reap, wait_pid, moved_from, waited, Operation, construct, wait,
  move_construct, move_assign, destroy, construct_at, wait_at, move_construct_at, move_assign_at,
  destroy_at, operate, operate_all,
}

-- 1 where the object still has to wait for the child.
abbrev pub is_pid : ℕ → Option ℕ → ℕ
is_pid pid none = 0
is_pid pid (some q) = if q == pid then 1 else 0

abbrev pub owns : ℕ → Process → ℕ
owns pid p = if not p.done then is_pid pid p.pid else 0

abbrev pub owns_at : ℕ → Option Process → ℕ
owns_at pid none = 0
owns_at pid (some p) = owns pid p

-- The children forked are those waited for and those that an object still owns.
abbrev pub IsBalanced : ℕ → Processes → Type 0
IsBalanced pid s = count pid s.waited_for + total (owns_at pid) s.objects ≡ count pid s.forked

count-wait_pid :
    (pid : ℕ) (o : Option ℕ) (log : List ℕ)
    → count pid (wait_pid o log) ≡ count pid log + is_pid pid o
count-wait_pid pid none log = omega arith
count-wait_pid pid (some q) log = ground arith

count-reap :
    (pid : ℕ) (p : Process) (log : List ℕ) → count pid (reap p log) ≡ count pid log + owns pid p
unfolding reap
count-reap pid p log = ground (arith, count-wait_pid pid p.pid log)

owns-waited : (pid : ℕ) (p : Process) → owns pid (waited p) ≡ 0
owns-waited pid p = ground arith

module _ (pid : ℕ) (s : Processes) (balanced : IsBalanced pid s) where
  construct-IsBalanced :
      (i q : ℕ) (o : Option (Option Process))
      → at s.objects i ≡ o
      → IsBalanced pid (construct_at i q o s)
  unfolding construct_at
  construct-IsBalanced i q none e = balanced
  construct-IsBalanced i q (some (some p)) e = balanced
  construct-IsBalanced i q (some none) e =
      ground (
        arith,
        total-set (owns_at pid) s.objects i (some (record { pid = some q; done = false })) e,
      )

  wait-IsBalanced :
      (i : ℕ) (o : Option (Option Process)) → at s.objects i ≡ o → IsBalanced pid (wait_at i o s)
  unfolding wait_at
  wait-IsBalanced i none e = balanced
  wait-IsBalanced i (some none) e = balanced
  wait-IsBalanced i (some (some p)) e = omega (
    arith,
    count-reap pid p s.waited_for,
    owns-waited pid p,
    total-set (owns_at pid) s.objects i (some (waited p)) e,
  )

  destroy-IsBalanced :
      (i : ℕ) (o : Option (Option Process)) → at s.objects i ≡ o → IsBalanced pid (destroy_at i o s)
  unfolding destroy_at
  destroy-IsBalanced i none e = balanced
  destroy-IsBalanced i (some none) e = balanced
  destroy-IsBalanced i (some (some p)) e =
      omega (arith, count-reap pid p s.waited_for, total-set (owns_at pid) s.objects i none e)

  move_construct-IsBalanced :
      (i j : ℕ) (to from : Option (Option Process))
      → at s.objects i ≡ to
      → at s.objects j ≡ from
      → IsBalanced pid (move_construct_at i j to from s)
  unfolding move_construct_at
  move_construct-IsBalanced i j (some none) (some (some p)) e f = elim (Bool-cases (i == j)) [
    | inl same ↦ absurd (let k = ap (at s.objects) ((==_iff i j).0 same) in cc)
    | inr other ↦
        omega (arith, total-move (owns_at pid) i j s.objects p moved_from none refl other e f)
  ]
  move_construct-IsBalanced i j none from e f = balanced
  move_construct-IsBalanced i j (some (some old)) from e f = balanced
  move_construct-IsBalanced i j (some none) none e f = balanced
  move_construct-IsBalanced i j (some none) (some none) e f = balanced

  move_assign-IsBalanced :
      (i j : ℕ) (to from : Option (Option Process))
      → at s.objects i ≡ to
      → at s.objects j ≡ from
      → IsBalanced pid (move_assign_at i j to from s)
  unfolding move_assign_at
  move_assign-IsBalanced i j (some (some old)) (some (some p)) e f = elim (Bool-cases (i == j)) [
    | inl same ↦ rw same balanced
    | inr other ↦ rw other (
        omega (
          arith,
          count-reap pid old s.waited_for,
          total-move (owns_at pid) i j s.objects p moved_from (some old) refl other e f,
        ))
  ]
  move_assign-IsBalanced i j none from e f = balanced
  move_assign-IsBalanced i j (some none) from e f = balanced
  move_assign-IsBalanced i j (some (some old)) none e f = balanced
  move_assign-IsBalanced i j (some (some old)) (some none) e f = balanced

  operate-IsBalanced : (o : Operation) → IsBalanced pid (operate o s)
  unfolding operate
  operate-IsBalanced (construct i q) = construct-IsBalanced i q (at s.objects i) refl
  operate-IsBalanced (wait i) = wait-IsBalanced i (at s.objects i) refl
  operate-IsBalanced (move_construct i j) =
      move_construct-IsBalanced i j (at s.objects i) (at s.objects j) refl refl
  operate-IsBalanced (move_assign i j) =
      move_assign-IsBalanced i j (at s.objects i) (at s.objects j) refl refl
  operate-IsBalanced (destroy i) = destroy-IsBalanced i (at s.objects i) refl

-- However a program constructs, moves, waits for and destroys its objects, a child has been forked
-- as often as it has been waited for, plus the objects that will still wait for it: no child is
-- waited for twice, and none whose objects are gone is left a zombie.
pub operate_all-IsBalanced :
    (pid : ℕ) (operations : List Operation) (s : Processes)
    → IsBalanced pid s
    → IsBalanced pid (operate_all operations s)
unfolding operate_all
operate_all-IsBalanced pid [] s h = h
operate_all-IsBalanced pid (o ∷ operations) s h =
    operate_all-IsBalanced pid operations (operate o s) (operate-IsBalanced pid s h o)
