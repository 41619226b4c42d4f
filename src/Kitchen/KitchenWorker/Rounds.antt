-- ===== src/Kitchen/KitchenWorker/Rounds.antt =====
-- When a kitchen closes.
use plazza.Prelude.{
  ℕ, ◌-◌, ◌<◌, ◌≡◌, inl, inr, Bool, true, false, List, [], ◌∷◌, Option, none, All, arith,
  Bool-cases, leb, if◌then◌else◌,
}
use plazza.Ipc.{Packet}
use plazza.Kitchen.ThreadPool.{ThreadPool}
use plazza.Kitchen.KitchenWorker.{
  KitchenWorker, Round, k_idle_timeout, check_idle, receive_one, loop,
}
use plazza.Reception.{Outcome, returned}

-- Nothing arrives in the round, and an idle pool stays idle.
pub record IsQuiet (round : Round) : Type 0 where
  pub nothing_received : round.received ≡ none
  pub stays_idle : (pool : ThreadPool) → pool.load ≡ 0 → (round.threads pool).load ≡ 0

-- The check of the round comes too early for the time-out.
abbrev pub IsEarly : ℕ → Round → Type 0
IsEarly last round = round.checked_at - last < k_idle_timeout

-- The loop returned, and says that it goes on exactly where `P` holds.
pub data GoesOn (P : Type 0) : Outcome (KitchenWorker × Bool) → Type 0 where
  still_open : (worker : KitchenWorker) → P → GoesOn P (returned (worker, true))
  closed : (worker : KitchenWorker) → ¬ P → GoesOn P (returned (worker, false))

module _ (send_error : Packet → Option (List ℕ)) where
  loop_quiet :
      (round : Round) (rounds : List Round) (worker : KitchenWorker)
      → IsQuiet round
      → worker.pool.load ≡ 0
      → loop send_error (round ∷ rounds) worker ≡ (
          let w : KitchenWorker = record worker { pool = round.threads worker.pool } in
          if leb k_idle_timeout (round.checked_at - worker.last_active_time)
          then returned (w, false)
          else loop send_error rounds w)
  unfolding loop receive_one check_idle
  loop_quiet round rounds worker quiet idle =
      let idle' = quiet.stays_idle worker.pool idle in
      rw (quiet.nothing_received, idle') (ground arith)

  GoesOn-later :
      {P Q : Type 0} {o : Outcome (KitchenWorker × Bool)}
      → GoesOn P o
      → (P → Q)
      → (Q → P)
      → GoesOn Q o
  GoesOn-later (still_open worker h) f g = still_open worker (f h)
  GoesOn-later (closed worker h) f g = closed worker (λ q. h (g q))

  -- A kitchen to which nothing is sent while it is idle still runs after any number of rounds
  -- exactly where each round was checked less than five seconds after it was last active, and
  -- has left its loop otherwise.
  pub loop-GoesOn :
      (rounds : List Round) (worker : KitchenWorker)
      → All IsQuiet rounds
      → worker.pool.load ≡ 0
      → GoesOn (All (IsEarly worker.last_active_time) rounds) (loop send_error rounds worker)
  unfolding loop
  loop-GoesOn [] worker quiet idle = still_open worker tt
  loop-GoesOn (round ∷ rounds) worker (quiet, later) idle =
      let w : KitchenWorker = record worker { pool = round.threads worker.pool } in
      elim (Bool-cases (leb k_idle_timeout (round.checked_at - worker.last_active_time))) [
        | inl e ↦
            rw (loop_quiet round rounds worker quiet idle, e)
              (closed w (λ early. absurd (ground (arith, early.0))))
        | inr e ↦
            rw (loop_quiet round rounds worker quiet idle, e)
              (GoesOn-later (loop-GoesOn rounds w later (quiet.stays_idle worker.pool idle))
                (λ early. (ground arith, early)) (λ early. early.1))
      ]
