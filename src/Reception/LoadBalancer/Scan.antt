-- ===== src/Reception/LoadBalancer/Scan.antt =====
-- The scan of `dispatch` finds a least loaded kitchen with room.
use plazza.Prelude.{
  ℕ, suc, ◌+◌, ◌≤◌, ◌≡◌, refl, ◌⊎◌, inl, inr, true, false, List, [], ◌∷◌, Option, none, some, arith,
  All, ltb, Bool-cases,
}
use plazza.Reception.{KitchenHandle}
use plazza.Reception.LoadBalancer.{has_room, better, scan, kitchen_at}

better-least :
    (k : KitchenHandle) (i : ℕ) (best : Option (ℕ × ℕ))
    → (b : ℕ) × (m : ℕ) × (better k i best ≡ some (b, m))
      × (m ≤ k.load)
      × ((b' m' : ℕ) → best ≡ some (b', m') → m ≤ m')
unfolding better
better-least k i none = (i, k.load, refl, omega arith, λ b m e. absurd (cc))
better-least k i (some (j, l)) = elim (Bool-cases (ltb k.load l)) [
  | inl e ↦ (i, k.load, rw e, omega arith, λ b m q. ground arith)
  | inr e ↦ (j, l, rw e, ground arith, λ b m q. ground arith)
]

-- The result loses to no kitchen that is passed, nor to the best so far.
scan-least :
    (ks : List KitchenHandle) (i : ℕ) (best : Option (ℕ × ℕ)) {j load : ℕ}
    → scan ks i best ≡ some (j, load)
    → All (λ k. has_room k ≡ true → load ≤ k.load) ks × ((b m : ℕ) → best ≡ some (b, m) → load ≤ m)
unfolding scan
scan-least [] i best h = (tt, λ b m e. ground arith)
scan-least (k ∷ ks) i best {load} h = elim (Bool-cases (has_room k)) [
  | inl e ↦
      let (b, m, eb, le_k, le_best) = better-least k i best in
      let (all, bound) = scan-least ks (suc i) (better k i best) (rw (e, scan) at h) in
      let below : load ≤ m = bound b m eb in
      ((λ _. omega arith, all), λ b' m' q. omega (arith, le_best b' m' q))
  | inr e ↦
      let (all, bound) = scan-least ks (suc i) best (rw (e, scan) at h) in
      ((λ room. absurd (cc), all), bound)
]

-- It is the best so far or a kitchen with room that is passed.
abbrev From : List KitchenHandle → ℕ → ℕ → ℕ → Type 0
From ks i j load =
    (d : ℕ) × (k : KitchenHandle) × (j ≡ i + d)
    × (kitchen_at d ks ≡ some k)
    × (has_room k ≡ true)
    × (k.load ≡ load)

better-From :
    (k : KitchenHandle) (i : ℕ) (best : Option (ℕ × ℕ)) {j load : ℕ}
    → better k i best ≡ some (j, load)
    → (best ≡ some (j, load)) ⊎ ((j ≡ i) × (k.load ≡ load))
unfolding better
better-From k i none h = inr (ground arith, ground arith)
better-From k i (some (b, m)) h = elim (Bool-cases (ltb k.load m)) [
  | inl e ↦ inr (ground arith, ground arith)
  | inr e ↦ inl (ground arith)
]

From-later :
    (k : KitchenHandle) (ks : List KitchenHandle) (i j load : ℕ)
    → From ks (suc i) j load
    → From (k ∷ ks) i j load
unfolding kitchen_at
From-later k ks i j load (d, k', ej, at, room, el) = (suc d, k', omega arith, at, room, el)

scan-From :
    (ks : List KitchenHandle) (i : ℕ) (best : Option (ℕ × ℕ)) {j load : ℕ}
    → scan ks i best ≡ some (j, load)
    → (best ≡ some (j, load)) ⊎ From ks i j load
unfolding scan kitchen_at
scan-From [] i best h = inl h
scan-From (k ∷ ks) i best {j} {load} h = elim (Bool-cases (has_room k)) [
  | inl e ↦ elim (scan-From ks (suc i) (better k i best) (rw (e, scan) at h)) [
    | inr later ↦ inr (From-later k ks i j load later)
    | inl now ↦ elim (better-From k i best now) [
      | inl old ↦ inl old
      | inr (ej, el) ↦ inr (0, k, omega arith, refl, e, el)
    ]
  ]
  | inr e ↦ elim (scan-From ks (suc i) best (rw (e, scan) at h)) [
    | inl old ↦ inl old
    | inr later ↦ inr (From-later k ks i j load later)
  ]
]

scan-none :
    (ks : List KitchenHandle) (i : ℕ) (best : Option (ℕ × ℕ))
    → scan ks i best ≡ none
    → (best ≡ none) × All (λ k. has_room k ≡ false) ks
unfolding scan
scan-none [] i best h = (h, tt)
scan-none (k ∷ ks) i best h = elim (Bool-cases (has_room k)) [
  | inl e ↦
      let (b, m, eb, _, _) = better-least k i best in
      let (missing, _) = scan-none ks (suc i) (better k i best) (rw (e, scan) at h) in absurd (cc)
  | inr e ↦
      let (missing, all) = scan-none ks (suc i) best (rw (e, scan) at h) in (missing, (e, all))
]

-- The kitchen that `scan` finds: it is alive with room, and no kitchen alive with room has a
-- smaller load.
pub record IsLeast (ks : List KitchenHandle) (i load : ℕ) : Type 0 where
  pub kitchen : KitchenHandle
  pub stands : kitchen_at i ks ≡ some kitchen
  pub room : has_room kitchen ≡ true
  pub loaded : kitchen.load ≡ load
  pub least : All (λ k. has_room k ≡ true → load ≤ k.load) ks

abbrev pub Choice : List KitchenHandle → Option (ℕ × ℕ) → Type 0
Choice ks none = All (λ k. has_room k ≡ false) ks
Choice ks (some (i, load)) = IsLeast ks i load

scan_result : (ks : List KitchenHandle) (r : Option (ℕ × ℕ)) → scan ks 0 none ≡ r → Choice ks r
scan_result ks none e = (scan-none ks 0 none e).1
scan_result ks (some (i, load)) e = elim (scan-From ks 0 none e) [
  | inl none_is ↦ absurd (cc)
  | inr (d, k, ei, at, room, el) ↦
      let same : d ≡ i = omega arith in
      record {
        kitchen = k;
        stands = rw (← same) at;
        room = room;
        loaded = el;
        least = (scan-least ks 0 none e).0;
      }
]

-- The scan gives up exactly where no kitchen is alive and has room, and otherwise gives the index
-- and the load of a least loaded one of those.
pub scan-Choice : (ks : List KitchenHandle) → Choice ks (scan ks 0 none)
scan-Choice ks = scan_result ks (scan ks 0 none) refl
