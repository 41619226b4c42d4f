-- ===== src/Reception/LoadBalancer/Outcomes.antt =====
-- What the parts of a sequence keep, the sequence keeps, also where it ends in an exception.
use plazza.Reception.{Outcome, returned, threw, state_of}
use plazza.Reception.LoadBalancer.{◌>>=◌}

pub bind-keeps {ℓ κ} :
    {A : Type ℓ} (P : A → Type κ) (m : Outcome A) (f : A → Outcome A)
    → P (state_of m)
    → ((a : A) → P a → P (state_of (f a)))
    → P (state_of (m >>= f))
bind-keeps P (returned a) f h k = k a h
bind-keeps P (threw e a) f h k = h

-- The call returns, with a state of which `P` holds.
abbrev pub Returns {ℓ} : {A : Type ℓ} → (A → Type 0) → Outcome A → Type 0
Returns P (returned a) = P a
Returns P (threw e a) = ⊥

pub bind-Returns {ℓ} :
    {A : Type ℓ} (P Q : A → Type 0) (m : Outcome A) (f : A → Outcome A)
    → Returns P m
    → ((a : A) → P a → Returns Q (f a))
    → Returns Q (m >>= f)
bind-Returns P Q (returned a) f h k = k a h
bind-Returns P Q (threw e a) f h k = absurd h

pub Returns-mono {ℓ} :
    {A : Type ℓ} (P Q : A → Type 0) (m : Outcome A)
    → ((a : A) → P a → Q a)
    → Returns P m
    → Returns Q m
Returns-mono P Q (returned a) f h = f a h
Returns-mono P Q (threw e a) f h = absurd h

-- Where the call returns, `P` holds of the state; nothing is said of a call that throws.
abbrev pub OnReturn {ℓ} : {A : Type ℓ} → (A → Type 0) → Outcome A → Type 0
OnReturn P (returned a) = P a
OnReturn P (threw e a) = Unit

pub state_of-OnReturn {ℓ} :
    {A : Type ℓ} (P : A → Type 0) (m : Outcome A) → P (state_of m) → OnReturn P m
state_of-OnReturn P (returned a) h = h
state_of-OnReturn P (threw e a) h = tt

pub bind-OnReturn {ℓ} :
    {A : Type ℓ} (P : A → Type 0) (Q : A → Type 0) (m : Outcome A) (f : A → Outcome A)
    → Q (state_of m)
    → ((a : A) → Q a → OnReturn P (f a))
    → OnReturn P (m >>= f)
bind-OnReturn P Q (returned a) f h k = k a h
bind-OnReturn P Q (threw e a) f h k = tt

pub OnReturn-mono {ℓ} :
    {A : Type ℓ} (P Q : A → Type 0) (m : Outcome A)
    → ((a : A) → P a → Q a)
    → OnReturn P m
    → OnReturn Q m
OnReturn-mono P Q (returned a) f h = f a h
OnReturn-mono P Q (threw e a) f h = tt
