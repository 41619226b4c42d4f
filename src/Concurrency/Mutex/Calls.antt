-- ===== src/Concurrency/Mutex/Calls.antt =====
-- The calls that threads make on one mutex, what the kernel does on them, and what the methods tell
-- the threads.
use plazza.Prelude.{
  ℕ, zero, suc, ◌≡◌, Bool, true, false, List, [], ◌∷◌, Option, none, some, ◌==◌, if◌then◌else◌,
}
use plazza.Errors.{Result, ok, thrown}
use plazza.Concurrency.Mutex.{lock, unlock, trylock, wait, notify_one, notify_all}

-- The calls on one mutex and a condition variable, with their codes. A call of pthread_cond_wait
-- gives the mutex up and returns later, but for one that fails at once.
pub data Event : Type 0 where
  lock_called : ℕ → Event
  unlock_called : ℕ → Event
  trylock_called : ℕ → Event
  wait_begun : Event
  wait_returned : ℕ → Event
  notify_one_called : ℕ → Event
  notify_all_called : ℕ → Event

pub data Effect : Type 0 where
  takes : Effect
  frees : Effect
  nothing : Effect

-- What the manual says of a call that gives this code.
abbrev pub on_success : Effect → ℕ → Effect
on_success effect zero = effect
on_success effect (suc code) = nothing

abbrev pub effect : Event → Effect
effect (lock_called code) = on_success takes code
effect (unlock_called code) = on_success frees code
effect (trylock_called code) = on_success takes code
effect wait_begun = frees
effect (wait_returned code) = on_success takes code
effect (notify_one_called code) = nothing
effect (notify_all_called code) = nothing

abbrev pub Changes : Effect → ℕ → Option ℕ → Option ℕ → Type 0
Changes takes t before after = (before ≡ none) × (after ≡ some t)
Changes frees t before after = (before ≡ some t) → after ≡ none
Changes nothing t before after = after ≡ before

-- The kernel: its steps, who holds the mutex, and that it keeps to the manual.
pub record Kernel : Type 1 where
  pub K : Type 0
  pub Steps : K → ℕ → Event → K → Type 0
  pub holder : K → Option ℕ
  pub step_changes :
      {k k' : K} {e : Event} (t : ℕ) → Steps k t e k' → Changes (effect e) t (holder k) (holder k')

-- Whether a thread has the mutex by what the methods tell it, from whether it had it before.
abbrev pub if_ok : {A : Type 0} → Bool → Result A → Bool → Bool
if_ok new (ok a) old = new
if_ok new (thrown e) old = old

abbrev pub if_got : Result Bool → Bool → Bool
if_got (ok true) old = true
if_got (ok false) old = old
if_got (thrown e) old = old

unfoldable pub has_after : ℕ → Event → Bool → Bool
unfolding lock unlock trylock wait notify_one notify_all
has_after ebusy (lock_called code) old = if_ok true (lock code) old
has_after ebusy (unlock_called code) old = if_ok false (unlock code) old
has_after ebusy (trylock_called code) old = if_got (trylock ebusy code) old
has_after ebusy wait_begun old = false
has_after ebusy (wait_returned code) old = if_ok true (wait code) old
has_after ebusy (notify_one_called code) old = if_ok old (notify_one code) old
has_after ebusy (notify_all_called code) old = if_ok old (notify_all code) old

-- The calls of a run, newest first.
abbrev pub History : Type 0
History = List (ℕ × Event)

unfoldable pub has : ℕ → ℕ → History → Bool
unfolding has_after
has ebusy t [] = false
has ebusy t ((u, e) ∷ h) = let old = has ebusy t h in if u == t then has_after ebusy e old else old

-- Only a thread that has the mutex gives it up, as a guard and the loops around wait do.
abbrev pub IsFair : Effect → Bool → Type 0
IsFair takes had = Unit
IsFair frees had = had ≡ true
IsFair nothing had = Unit

-- The runs of a program from a kernel where nobody holds the mutex.
pub data Run (ebusy : ℕ) (kernel : Kernel) : kernel.K → History → Type 0 where
  begun : {k : kernel.K} → kernel.holder k ≡ none → Run ebusy kernel k []
  called :
      {k k' : kernel.K} {h : History} {e : Event} (t : ℕ)
      → Run ebusy kernel k h
      → IsFair (effect e) (has ebusy t h)
      → kernel.Steps k t e k'
      → Run ebusy kernel k' ((t, e) ∷ h)
