-- ===== src/Ipc/MessageQueue/Ownership/Accounts.antt =====
-- Every queue is removed exactly once, by the object that owns it.
use plazza.Prelude.{
  ℕ, ◌+◌, ◌≡◌, refl, ap, inl, inr, Bool, true, false, List, [], ◌∷◌, Option, none, some, total,
  total-set, ◌==◌, ==_iff, if◌then◌else◌, arith, Bool-cases,
}
use plazza.Concurrency.Places.{at, count, total-move}
use plazza.Ipc.MessageQueue.{SysV, MessageQueue, release, destroy, moved_from}
use plazza.Ipc.MessageQueue.Ownership.{
  logging, Queues, Operation, constructed, move_constructed, move_assigned, destroyed,
  constructed_at, move_constructed_at, move_assigned_at, destroyed_at, operate, operate_all,
}

-- 1 where the object will remove the queue.
abbrev pub owns_id : ℕ → Option ℕ → ℕ
owns_id id none = 0
owns_id id (some j) = if j == id then 1 else 0

abbrev pub owns : ℕ → MessageQueue → ℕ
owns id q = if q.owner then owns_id id q.queue_id else 0

abbrev pub owns_at : ℕ → Option MessageQueue → ℕ
owns_at id none = 0
owns_at id (some q) = owns id q

module _ (os : SysV) (id : ℕ) where
  -- A queue was removed as often as it was made, less the objects that will still remove it.
  abbrev pub IsAccounted : Queues os → Type 0
  IsAccounted s = count id s.kernel.1 + total (owns_at id) s.objects ≡ count id s.made

  count-release :
      (at : Option ℕ) (path : List ℕ) (k : os.K × List ℕ)
      → count id (release (logging os) at path k).1 ≡ count id k.1 + owns_id id at
  count-release none path k = omega arith
  count-release (some j) path k = ground arith

  count-destroy :
      (q : MessageQueue) (k : os.K × List ℕ)
      → count id (destroy (logging os) q k).1 ≡ count id k.1 + owns id q
  unfolding destroy
  count-destroy q k = elim (Bool-cases q.owner) [
    | inl e ↦ rw e (count-release q.queue_id q.path k)
    | inr e ↦ rw e (omega arith)
  ]

  module _ (s : Queues os) (balanced : IsAccounted s) where
    constructed_at-IsAccounted :
        (i j : ℕ) (path : List ℕ) (owner : Bool) (o : Option (Option MessageQueue))
        → at s.objects i ≡ o
        → IsAccounted (constructed_at os i j path owner o s)
    unfolding constructed_at
    constructed_at-IsAccounted i j path owner none e = balanced
    constructed_at-IsAccounted i j path owner (some (some q)) e = balanced
    constructed_at-IsAccounted i j path true (some none) e = ground (
      arith,
      balanced,
      total-set (owns_at id) s.objects i
          (some (record { queue_id = some j; path = path; owner = true })) e,
    )
    constructed_at-IsAccounted i j path false (some none) e = ground (
      arith,
      balanced,
      total-set (owns_at id) s.objects i
          (some (record { queue_id = some j; path = path; owner = false })) e,
    )

    move_constructed_at-IsAccounted :
        (i j : ℕ) (to from : Option (Option MessageQueue))
        → at s.objects i ≡ to
        → at s.objects j ≡ from
        → IsAccounted (move_constructed_at os i j to from s)
    unfolding move_constructed_at
    move_constructed_at-IsAccounted i j (some none) (some (some q)) e f =
        elim (Bool-cases (i == j)) [
          | inl same ↦ absurd (let k = ap (at s.objects) ((==_iff i j).0 same) in cc)
          | inr other ↦ omega (
            arith,
            balanced,
            total-move (owns_at id) i j s.objects q (moved_from (logging os)) none refl other e f,
          )
        ]
    move_constructed_at-IsAccounted i j none from e f = balanced
    move_constructed_at-IsAccounted i j (some (some old)) from e f = balanced
    move_constructed_at-IsAccounted i j (some none) none e f = balanced
    move_constructed_at-IsAccounted i j (some none) (some none) e f = balanced

    move_assigned_at-IsAccounted :
        (i j : ℕ) (to from : Option (Option MessageQueue))
        → at s.objects i ≡ to
        → at s.objects j ≡ from
        → IsAccounted (move_assigned_at os i j to from s)
    unfolding move_assigned_at
    move_assigned_at-IsAccounted i j (some (some old)) (some (some q)) e f =
        elim (Bool-cases (i == j)) [
          | inl same ↦ rw same balanced
          | inr other ↦ rw other (
              omega (
                arith,
                balanced,
                count-destroy old s.kernel,
                total-move (owns_at id) i j s.objects q (moved_from (logging os)) (some old) refl
                    other e f,
              ))
        ]
    move_assigned_at-IsAccounted i j none from e f = balanced
    move_assigned_at-IsAccounted i j (some none) from e f = balanced
    move_assigned_at-IsAccounted i j (some (some old)) none e f = balanced
    move_assigned_at-IsAccounted i j (some (some old)) (some none) e f = balanced

    destroyed_at-IsAccounted :
        (i : ℕ) (o : Option (Option MessageQueue))
        → at s.objects i ≡ o
        → IsAccounted (destroyed_at os i o s)
    unfolding destroyed_at
    destroyed_at-IsAccounted i none e = balanced
    destroyed_at-IsAccounted i (some none) e = balanced
    destroyed_at-IsAccounted i (some (some q)) e =
        omega (arith, balanced, count-destroy q s.kernel, total-set (owns_at id) s.objects i none e)

    operate-IsAccounted : (o : Operation) → IsAccounted (operate os o s)
    unfolding operate
    operate-IsAccounted (constructed i j path owner) =
        constructed_at-IsAccounted i j path owner (at s.objects i) refl
    operate-IsAccounted (move_constructed i j) =
        move_constructed_at-IsAccounted i j (at s.objects i) (at s.objects j) refl refl
    operate-IsAccounted (move_assigned i j) =
        move_assigned_at-IsAccounted i j (at s.objects i) (at s.objects j) refl refl
    operate-IsAccounted (destroyed i) = destroyed_at-IsAccounted i (at s.objects i) refl

  -- However a program constructs, moves and destroys its objects, the destructor and the move
  -- assignment have removed a queue exactly as often as an object that owns it was constructed,
  -- less the objects that will still remove it: no queue is removed twice, none that an object
  -- still owns is removed, and none is left behind when the objects are gone.
  pub operate_all-IsAccounted :
      (operations : List Operation) (s : Queues os)
      → IsAccounted s
      → IsAccounted (operate_all os operations s)
  unfolding operate_all
  operate_all-IsAccounted [] s h = h
  operate_all-IsAccounted (o ∷ operations) s h =
      operate_all-IsAccounted operations (operate os o s) (operate-IsAccounted s h o)
