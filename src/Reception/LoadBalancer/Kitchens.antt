-- ===== src/Reception/LoadBalancer/Kitchens.antt =====
-- Laws of the vector of kitchens: one element updated, dead ones erased, sums, and the order of
-- the numbers.
use plazza.Prelude.{
  ℕ, zero, suc, ◌+◌, ◌≤◌, ◌≡◌, refl, subst, List, [], ◌∷◌, ◌++◌, some, arith, All, length, if_both,
  ◌==◌, ◌<◌, false,
}
use plazza.Reception.{KitchenHandle}
use plazza.Reception.LoadBalancer.{update_at, kitchen_at, erase_dead}

abbrev pub total : (KitchenHandle → ℕ) → List KitchenHandle → ℕ
total w [] = 0
total w (k ∷ ks) = w k + total w ks

pub total-append :
    (w : KitchenHandle → ℕ) (ks js : List KitchenHandle)
    → total w (ks ++ js) ≡ total w ks + total w js
total-append w [] js = omega arith
total-append w (k ∷ ks) js = omega (arith, total-append w ks js)

pub total-update_at :
    (w : KitchenHandle → ℕ) (f : KitchenHandle → KitchenHandle) (c i : ℕ) (ks : List KitchenHandle)
    {k : KitchenHandle}
    → kitchen_at i ks ≡ some k
    → w (f k) ≡ w k + c
    → total w (update_at i f ks) ≡ total w ks + c
unfolding update_at kitchen_at
total-update_at w f c i [] e h = absurd (cc)
total-update_at w f c zero (j ∷ ks) e h = ground arith
total-update_at w f c (suc i) (j ∷ ks) e h = omega (arith, total-update_at w f c i ks e h)

pub All-update_at {κ} :
    (P : KitchenHandle → Type κ) (f : KitchenHandle → KitchenHandle) (i : ℕ)
    (ks : List KitchenHandle)
    → ((k : KitchenHandle) → kitchen_at i ks ≡ some k → P k → P (f k))
    → All P ks
    → All P (update_at i f ks)
unfolding update_at kitchen_at
All-update_at P f i [] h all = all
All-update_at P f zero (j ∷ ks) h all = (h j refl all.0, all.1)
All-update_at P f (suc i) (j ∷ ks) h all = (all.0, All-update_at P f i ks h all.1)

pub All-kitchen_at {κ} :
    (P : KitchenHandle → Type κ) (i : ℕ) (ks : List KitchenHandle) {k : KitchenHandle}
    → All P ks
    → kitchen_at i ks ≡ some k
    → P k
unfolding kitchen_at
All-kitchen_at P i [] all e = absurd (cc)
All-kitchen_at P zero (j ∷ ks) {k} all e = let same : j ≡ k = cc in subst P same all.0
All-kitchen_at P (suc i) (j ∷ ks) all e = All-kitchen_at P i ks all.1 e

pub All-erase_dead {κ} :
    (P : KitchenHandle → Type κ) (ks : List KitchenHandle) → All P ks → All P (erase_dead ks)
unfolding erase_dead
All-erase_dead P [] all = all
All-erase_dead P (k ∷ ks) all =
    let rest = All-erase_dead P ks all.1 in
    if_both (All P) k.alive (k ∷ erase_dead ks) (erase_dead ks) (all.0, rest) rest

pub kitchen_at-last :
    (ks : List KitchenHandle) (k : KitchenHandle) → kitchen_at (length ks) (ks ++ (k ∷ [])) ≡ some k
unfolding kitchen_at
kitchen_at-last [] k = refl
kitchen_at-last (j ∷ ks) k = kitchen_at-last ks k

pub update_at-last :
    (f : KitchenHandle → KitchenHandle) (ks : List KitchenHandle) (k : KitchenHandle)
    → update_at (length ks) f (ks ++ (k ∷ [])) ≡ ks ++ (f k ∷ [])
unfolding update_at
update_at-last f [] k = refl
update_at-last f (j ∷ ks) k = rw (update_at-last f ks k)

pub length-update_at :
    (f : KitchenHandle → KitchenHandle) (i : ℕ) (ks : List KitchenHandle)
    → length (update_at i f ks) ≡ length ks
unfolding update_at
length-update_at f i [] = refl
length-update_at f zero (k ∷ ks) = refl
length-update_at f (suc i) (k ∷ ks) = omega (arith, length-update_at f i ks)

-- The numbers rise along the vector, from `lo` on, and stay below `hi`.
abbrev pub Ascending : ℕ → List KitchenHandle → ℕ → Type 0
Ascending lo [] hi = lo ≤ hi
Ascending lo (k ∷ ks) hi = (lo ≤ k.id) × Ascending (suc k.id) ks hi

pub Ascending-last :
    (lo hi : ℕ) (ks : List KitchenHandle) (k : KitchenHandle)
    → Ascending lo ks hi
    → k.id ≡ hi
    → Ascending lo (ks ++ (k ∷ [])) (suc hi)
Ascending-last lo hi [] k h e = (omega arith, omega arith)
Ascending-last lo hi (j ∷ ks) k h e = (h.0, Ascending-last _ hi ks k h.1 e)

pub Ascending-mono :
    (lo lo' hi hi' : ℕ) (ks : List KitchenHandle)
    → lo' ≤ lo
    → hi ≤ hi'
    → Ascending lo ks hi
    → Ascending lo' ks hi'
Ascending-mono lo lo' hi hi' [] a b h = omega arith
Ascending-mono lo lo' hi hi' (k ∷ ks) a b h =
    (omega arith, Ascending-mono _ _ hi hi' ks (omega arith) b h.1)

pub Ascending-erase_dead :
    (lo hi : ℕ) (ks : List KitchenHandle) → Ascending lo ks hi → Ascending lo (erase_dead ks) hi
unfolding erase_dead
Ascending-erase_dead lo hi [] h = h
Ascending-erase_dead lo hi (k ∷ ks) h =
    let rest = Ascending-erase_dead (suc k.id) hi ks h.1 in
    if_both (λ js. Ascending lo js hi) k.alive (k ∷ erase_dead ks) (erase_dead ks) (h.0, rest)
      (Ascending-mono (suc k.id) lo hi hi (erase_dead ks) (omega arith) (omega arith) rest)

pub Ascending-update_at :
    (f : KitchenHandle → KitchenHandle)
    → ((k : KitchenHandle) → (f k).id ≡ k.id)
    → (lo hi i : ℕ) (ks : List KitchenHandle) → Ascending lo ks hi
    → Ascending lo (update_at i f ks) hi
unfolding update_at
Ascending-update_at f same lo hi i [] h = h
Ascending-update_at f same lo hi zero (k ∷ ks) h = rw (same k) h
Ascending-update_at f same lo hi (suc i) (k ∷ ks) h =
    (h.0, Ascending-update_at f same _ hi i ks h.1)

-- A kitchen of another number, and one of a number below.
abbrev pub IsOther : ℕ → KitchenHandle → Type 0
IsOther id d = (d.id == id) ≡ false

abbrev pub IsBelow : ℕ → KitchenHandle → Type 0
IsBelow lo d = d.id < lo

pub IsBelow-IsOther :
    (lo id : ℕ) (ds : List KitchenHandle) → lo ≤ id → All (IsBelow lo) ds → All (IsOther id) ds
IsBelow-IsOther lo id [] l h = tt
IsBelow-IsOther lo id (d ∷ ds) l h = (ground (arith, h.0), IsBelow-IsOther lo id ds l h.1)

pub IsBelow-raised :
    (lo hi : ℕ) (ds : List KitchenHandle) → lo ≤ hi → All (IsBelow lo) ds → All (IsBelow hi) ds
IsBelow-raised lo hi [] l h = tt
IsBelow-raised lo hi (d ∷ ds) l h = (omega (arith, h.0), IsBelow-raised lo hi ds l h.1)
