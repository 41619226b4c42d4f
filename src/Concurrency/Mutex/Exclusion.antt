-- ===== src/Concurrency/Mutex/Exclusion.antt =====
-- At most one thread has a mutex, by what the methods have told the threads.
use plazza.Prelude.{
  ℕ, zero, suc, ◌≡◌, refl, sym, ap, ◌∙◌, subst, Bool, true, false, List, Option, none, some, ◌==◌,
  ==_iff, arith, Bool-cases, inl, inr,
}
use plazza.Errors.{Result, ok, thrown}
use plazza.Concurrency.Mutex.{checked, trylock, notify_one, notify_all}
use plazza.Concurrency.Mutex.Calls.{
  Event, lock_called, unlock_called, trylock_called, wait_begun, wait_returned, notify_one_called,
  notify_all_called, Effect, takes, frees, nothing, effect, Changes, Kernel, if_ok, if_got,
  has_after, History, has, IsFair, Run, begun, called,
}

abbrev holds : ℕ → Option ℕ → Bool
holds t none = false
holds t (some u) = u == t

abbrev apply : Effect → Bool → Bool
apply takes old = true
apply frees old = false
apply nothing old = old

not_zero : (c : ℕ) → (suc c == 0) ≡ false
not_zero c = ground arith

trylock-got : (ebusy c : ℕ) (old : Bool) → if_got (trylock ebusy (suc c)) old ≡ old
unfolding trylock
trylock-got ebusy c old = elim (Bool-cases (suc c == ebusy)) [
  | inl e ↦ rw (not_zero c, e) refl
  | inr e ↦ rw (not_zero c, e) refl
]

if_ok-checked :
    (new old : Bool) (message : List ℕ) (c : ℕ) → if_ok new (checked message (suc c)) old ≡ old
if_ok-checked new old message c = rw (not_zero c) refl

if_ok-same : {A : Type 0} (b : Bool) (r : Result A) → if_ok b r b ≡ b
if_ok-same b (ok a) = refl
if_ok-same b (thrown e) = refl

has_after-apply :
    (ebusy : ℕ) (e : Event) (old : Bool) → has_after ebusy e old ≡ apply (effect e) old
unfolding has_after
has_after-apply ebusy (lock_called zero) old = refl
has_after-apply ebusy (lock_called (suc c)) old = if_ok-checked true old _ c
has_after-apply ebusy (unlock_called zero) old = refl
has_after-apply ebusy (unlock_called (suc c)) old = if_ok-checked false old _ c
has_after-apply ebusy (trylock_called zero) old = refl
has_after-apply ebusy (trylock_called (suc c)) old = trylock-got ebusy c old
has_after-apply ebusy wait_begun old = refl
has_after-apply ebusy (wait_returned zero) old = refl
has_after-apply ebusy (wait_returned (suc c)) old = if_ok-checked true old _ c
has_after-apply ebusy (notify_one_called c) old = if_ok-same old (notify_one c)
has_after-apply ebusy (notify_all_called c) old = if_ok-same old (notify_all c)

holds-some : (t : ℕ) (x : Option ℕ) → holds t x ≡ true → x ≡ some t
holds-some t none h = absurd (cc)
holds-some t (some u) h = ap some ((==_iff u t).0 h)

-- What a call does to whether its own thread holds the mutex, and to whether another one does.
own-Changes :
    (effect : Effect) (t : ℕ) (x y : Option ℕ)
    → IsFair effect (holds t x)
    → Changes effect t x y
    → holds t y ≡ apply effect (holds t x)
own-Changes takes t x y fair c = ap (holds t) c.1 ∙ (==_iff t t).1 refl
own-Changes frees t x y fair c = ap (holds t) (c (holds-some t x fair))
own-Changes nothing t x y fair c = ap (holds t) c

other-Changes :
    (effect : Effect) (u t : ℕ) (x y : Option ℕ)
    → (u == t) ≡ false
    → IsFair effect (holds u x)
    → Changes effect u x y
    → holds t y ≡ holds t x
other-Changes takes u t x y differs fair c = ap (holds t) c.1 ∙ differs ∙ sym (ap (holds t) c.0)
other-Changes frees u t x y differs fair c =
    let held = holds-some u x fair in ap (holds t) (c held) ∙ sym (ap (holds t) held ∙ differs)
other-Changes nothing u t x y differs fair c = ap (holds t) c

module _ (ebusy : ℕ) (kernel : Kernel) where
  -- The methods tell a thread the truth.
  has-holds :
      {k : kernel.K} {h : History} (t : ℕ)
      → Run ebusy kernel k h
      → has ebusy t h ≡ holds t (kernel.holder k)
  unfolding has
  has-holds t (begun free) = sym (ap (holds t) free)
  has-holds t (called {k} {k'} {h} {e} u run fair step) =
      let fair' : IsFair (effect e) (holds u (kernel.holder k)) =
        subst (IsFair (effect e)) (has-holds u run) fair in
      elim (Bool-cases (u == t)) [
        | inl same ↦ rw same (
            let u-is : u ≡ t = (==_iff u t).0 same in
            has_after-apply ebusy e (has ebusy t h)
            ∙ ap (apply (effect e)) (has-holds t run)
            ∙ sym (
                own-Changes (effect e) t (kernel.holder k) (kernel.holder k')
                  (subst (λ v. IsFair (effect e) (holds v (kernel.holder k))) u-is fair')
                  (subst (λ v. Changes (effect e) v (kernel.holder k) (kernel.holder k')) u-is
                    (kernel.step_changes u step))))
        | inr differs ↦ rw differs (
            has-holds t run
            ∙ sym (
                other-Changes (effect e) u t (kernel.holder k) (kernel.holder k') differs fair'
                  (kernel.step_changes u step)))
      ]

  -- In every run of fair threads from a mutex that nobody holds, two threads that have the mutex
  -- by what lock, trylock, unlock and wait have told them are the same thread, also where calls
  -- fail and where trylock finds the mutex busy.
  pub Run-exclusive :
      {k : kernel.K} {h : History} (t u : ℕ)
      → Run ebusy kernel k h
      → has ebusy t h ≡ true
      → has ebusy u h ≡ true
      → t ≡ u
  Run-exclusive {k} t u run has_t has_u =
      let at_t = holds-some t (kernel.holder k) (sym (has-holds t run) ∙ has_t) in
      let at_u = holds-some u (kernel.holder k) (sym (has-holds u run) ∙ has_u) in cc
