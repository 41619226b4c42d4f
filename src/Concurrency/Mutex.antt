-- ===== src/Concurrency/Mutex.antt =====
-- concurrency/Mutex.cpp and concurrency/ConditionVariable.cpp: what a method makes of the code that
-- the call of pthread gives, which is 0 where the call succeeds.
pub mod Calls
pub mod Exclusion
pub mod Examples
use plazza.Prelude.{ℕ, Bool, true, false, List, codes, ◌==◌, if◌then◌else◌}
use plazza.Errors.{Result, ok, thrown}

abbrev pub k_mutex_init_failed : List ℕ
k_mutex_init_failed = codes "Failed to initialize mutex"

abbrev pub k_mutex_lock_failed : List ℕ
k_mutex_lock_failed = codes "Failed to lock mutex"

abbrev pub k_mutex_trylock_failed : List ℕ
k_mutex_trylock_failed = codes "Failed to trylock mutex"

abbrev pub k_mutex_unlock_failed : List ℕ
k_mutex_unlock_failed = codes "Failed to unlock mutex"

abbrev pub k_cond_var_init_failed : List ℕ
k_cond_var_init_failed = codes "Failed to initialize condition variable"

abbrev pub k_cond_var_wait_failed : List ℕ
k_cond_var_wait_failed = codes "Failed to wait on condition variable"

abbrev pub k_cond_var_signal_failed : List ℕ
k_cond_var_signal_failed = codes "Failed to signal condition variable"

abbrev pub k_cond_var_broadcast_failed : List ℕ
k_cond_var_broadcast_failed = codes "Failed to broadcast condition variable"

-- `if (call != 0) throw`.
abbrev pub checked : List ℕ → ℕ → Result (Unit {0})
checked message code = if code == 0 then ok tt else thrown message

unfoldable pub init_mutex : ℕ → Result (Unit {0})
init_mutex code = checked k_mutex_init_failed code

unfoldable pub lock : ℕ → Result (Unit {0})
lock code = checked k_mutex_lock_failed code

unfoldable pub unlock : ℕ → Result (Unit {0})
unlock code = checked k_mutex_unlock_failed code

unfoldable pub trylock : ℕ → ℕ → Result Bool
trylock ebusy code =
    if code == 0 then ok true else if code == ebusy then ok false else thrown k_mutex_trylock_failed

unfoldable pub init_condition_variable : ℕ → Result (Unit {0})
init_condition_variable code = checked k_cond_var_init_failed code

unfoldable pub wait : ℕ → Result (Unit {0})
wait code = checked k_cond_var_wait_failed code

unfoldable pub notify_one : ℕ → Result (Unit {0})
notify_one code = checked k_cond_var_signal_failed code

unfoldable pub notify_all : ℕ → Result (Unit {0})
notify_all code = checked k_cond_var_broadcast_failed code
