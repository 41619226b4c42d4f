-- ===== src/Ipc/MessageQueue/Ownership.antt =====
-- Which objects remove a queue: the destructor and the move operations, as the operations of a
-- program that keeps its objects in numbered places.
pub mod Accounts
use plazza.Prelude.{
  ℕ, suc, ◌+◌, ◌≡◌, refl, ap, ◌∙◌, inl, inr, Bool, true, false, List, [], ◌∷◌, ◌++◌, Option, none,
  some, set, total, total-set, ◌==◌, ==_iff, if◌then◌else◌, if_true, if_false, arith, Bool-cases,
}
use plazza.Concurrency.Places.{at, count, total-move}
use plazza.Ipc.{Packet}
use plazza.Ipc.MessageQueue.{
  SysV, Received, got, no_message, failed, MessageQueue, release, destroy, moved_from,
  move_construct, move_assign,
}

abbrev pub received_with : {K : Type 0} → List ℕ → Received K → Received (K × List ℕ)
received_with log (got p k) = got p (k, log)
received_with log no_message = no_message
received_with log failed = failed

abbrev pub with_log : {K : Type 0} → List ℕ → Option K → Option (K × List ℕ)
with_log log none = none
with_log log (some k) = some (k, log)

abbrev pub new_with_log : {K : Type 0} → List ℕ → Option (ℕ × K) → Option (ℕ × (K × List ℕ))
new_with_log log none = none
new_with_log log (some (id, k)) = some (id, (k, log))

-- The same kernel, with a log of the queues that msgctl was told to remove, newest first.
abbrev pub logging : SysV → SysV
logging os = record {
  K = os.K × List ℕ;
  fopen = λ path k. with_log k.1 (os.fopen path k.0);
  remove = λ path k. (os.remove path k.0, k.1);
  ftok = λ path k. os.ftok path k.0;
  msgget = λ key k. os.msgget key k.0;
  msgget_new = λ key k. new_with_log k.1 (os.msgget_new key k.0);
  msgctl_remove = λ id k. (os.msgctl_remove id k.0, id ∷ k.1);
  msgsnd = λ id p k. with_log k.1 (os.msgsnd id p k.0);
  msgrcv = λ id k. received_with k.1 (os.msgrcv id k.0);
}

-- The objects, the kernel, and the queues for which an object that owns was constructed.
pub record Queues (os : SysV) : Type 0 where
  pub objects : List (Option MessageQueue)
  pub kernel : os.K × List ℕ
  pub made : List ℕ

-- An operation; one that no program makes, in a place that has an object or of a place that has
-- none, changes nothing here.
pub data Operation : Type 0 where
  constructed : ℕ → ℕ → List ℕ → Bool → Operation  -- the constructor has found this queue
  move_constructed : ℕ → ℕ → Operation  -- to, from
  move_assigned : ℕ → ℕ → Operation  -- to, from
  destroyed : ℕ → Operation

module _ (os : SysV) where
  abbrev pub moved_in : ℕ → ℕ → MessageQueue × MessageQueue → Queues os → Queues os
  moved_in i j (this, other) s = record s {
    objects = set (set s.objects i (some this)) j (some other);
  }

  abbrev pub assigned_in :
      ℕ → ℕ → MessageQueue × MessageQueue × (os.K × List ℕ) → Queues os → Queues os
  assigned_in i j (this, other, kernel) s = record s {
    objects = set (set s.objects i (some this)) j (some other);
    kernel = kernel;
  }

  unfoldable pub constructed_at :
      ℕ → ℕ → List ℕ → Bool → Option (Option MessageQueue) → Queues os → Queues os
  constructed_at i id path owner (some none) s = record s {
    objects = set s.objects i (some (record { queue_id = some id; path = path; owner = owner }));
    made = if owner then id ∷ s.made else s.made;
  }
  constructed_at i id path owner _ s = s

  unfoldable pub move_constructed_at :
      ℕ → ℕ → Option (Option MessageQueue) → Option (Option MessageQueue) → Queues os → Queues os
  unfolding move_construct
  move_constructed_at i j (some none) (some (some q)) s =
      moved_in i j (move_construct (logging os) q) s
  move_constructed_at i j _ _ s = s

  unfoldable pub move_assigned_at :
      ℕ → ℕ → Option (Option MessageQueue) → Option (Option MessageQueue) → Queues os → Queues os
  unfolding move_assign
  move_assigned_at i j (some (some old)) (some (some q)) s =
      if i == j then s else assigned_in i j (move_assign (logging os) false old q s.kernel) s
  move_assigned_at i j _ _ s = s

  unfoldable pub destroyed_at : ℕ → Option (Option MessageQueue) → Queues os → Queues os
  unfolding destroy
  destroyed_at i (some (some q)) s = record s {
    objects = set s.objects i none;
    kernel = destroy (logging os) q s.kernel;
  }
  destroyed_at i _ s = s

  unfoldable pub operate : Operation → Queues os → Queues os
  unfolding constructed_at move_constructed_at move_assigned_at destroyed_at
  operate (constructed i id path owner) s = constructed_at i id path owner (at s.objects i) s
  operate (move_constructed i j) s = move_constructed_at i j (at s.objects i) (at s.objects j) s
  operate (move_assigned i j) s = move_assigned_at i j (at s.objects i) (at s.objects j) s
  operate (destroyed i) s = destroyed_at i (at s.objects i) s

  unfoldable pub operate_all : List Operation → Queues os → Queues os
  unfolding operate
  operate_all [] s = s
  operate_all (o ∷ operations) s = operate_all operations (operate o s)
