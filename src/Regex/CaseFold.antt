-- ===== src/Regex/CaseFold.antt =====
-- A pattern whose classes do not tell a byte from its folded form matches the folded text alike,
-- with the folded groups.
use mathlib.Core.Option
use plazza.Prelude.{
  or_else, ℕ, ◌≡◌, refl, inl, inr, subst, Bool, List, [], ◌∷◌, ◌++◌, map, map-append, Option, none,
  some, Bool-cases,
}
use plazza.Regex.{
  Regex, class, star, lazy_plus, seq, alt, group, Cont, exec_star, exec_lazy, exec_class, exec,
  at_end, regex_match,
}

module _ (f : ℕ → ℕ) where
  abbrev pub fold_groups : List (List ℕ) → List (List ℕ)
  fold_groups = map (map f)

  abbrev fold_result : Option (List (List ℕ)) → Option (List (List ℕ))
  fold_result = Option.map fold_groups

  abbrev pub IsBlind : (ℕ → Bool) → Type 0
  IsBlind p = (c : ℕ) → p (f c) ≡ p c

  abbrev pub IsFoldable : Regex → Type 0
  IsFoldable (class p) = IsBlind p
  IsFoldable (star p) = IsBlind p
  IsFoldable (lazy_plus p) = IsBlind p
  IsFoldable (seq r q) = IsFoldable r × IsFoldable q
  IsFoldable (alt r q) = IsFoldable r × IsFoldable q
  IsFoldable (group r) = IsFoldable r

  -- `k'` does on folded texts what `k` does.
  abbrev Folds : Cont → Cont → Type 0
  Folds k' k =
      (taken : List ℕ) (groups : List (List ℕ)) (rest : List ℕ)
      → k' (map f taken) (fold_groups groups) (map f rest) ≡ fold_result (k taken groups rest)

  or_else-fold :
      (a b : Option (List (List ℕ)))
      → or_else (fold_result a) (fold_result b) ≡ fold_result (or_else a b)
  or_else-fold none b = refl
  or_else-fold (some a) b = refl

  exec_star-fold :
      (p : ℕ → Bool)
      → IsBlind p
      → (k' k : Cont) → Folds k' k
      → (groups : List (List ℕ)) (s : List ℕ)
      → exec_star p k' (fold_groups groups) (map f s) ≡ fold_result (exec_star p k groups s)
  unfolding exec_star
  exec_star-fold p blind k' k h groups [] = h [] groups []
  exec_star-fold p blind k' k h groups (c ∷ s) = elim (Bool-cases (p c)) [
    | inl e ↦
        rw
          (
            blind c,
            e,
            exec_star-fold p blind (λ t. k' (f c ∷ t)) (λ t. k (c ∷ t)) (λ t. h (c ∷ t)) groups s,
            h [] groups (c ∷ s),
          )
          (or_else-fold (exec_star p (λ t. k (c ∷ t)) groups s) (k [] groups (c ∷ s)))
    | inr e ↦ rw (blind c, e) (h [] groups (c ∷ s))
  ]

  exec_lazy-fold :
      (p : ℕ → Bool)
      → IsBlind p
      → (k' k : Cont) → Folds k' k
      → (groups : List (List ℕ)) (s : List ℕ)
      → exec_lazy p k' (fold_groups groups) (map f s) ≡ fold_result (exec_lazy p k groups s)
  unfolding exec_lazy
  exec_lazy-fold p blind k' k h groups [] = refl
  exec_lazy-fold p blind k' k h groups (c ∷ s) = elim (Bool-cases (p c)) [
    | inl e ↦
        rw
          (
            blind c,
            e,
            exec_lazy-fold p blind (λ t. k' (f c ∷ t)) (λ t. k (c ∷ t)) (λ t. h (c ∷ t)) groups s,
            h (c ∷ []) groups s,
          )
          (or_else-fold (k (c ∷ []) groups s) (exec_lazy p (λ t. k (c ∷ t)) groups s))
    | inr e ↦ rw (blind c, e)
  ]

  exec_class-fold :
      (p : ℕ → Bool)
      → IsBlind p
      → (k' k : Cont) → Folds k' k
      → (groups : List (List ℕ)) (s : List ℕ)
      → exec_class p k' (fold_groups groups) (map f s) ≡ fold_result (exec_class p k groups s)
  unfolding exec_class
  exec_class-fold p blind k' k h groups [] = refl
  exec_class-fold p blind k' k h groups (c ∷ s) = elim (Bool-cases (p c)) [
    | inl e ↦ rw (blind c, e) (h (c ∷ []) groups s)
    | inr e ↦ rw (blind c, e)
  ]

  exec-fold :
      (r : Regex)
      → IsFoldable r
      → (k' k : Cont) → Folds k' k
      → (groups : List (List ℕ)) (s : List ℕ)
      → exec r k' (fold_groups groups) (map f s) ≡ fold_result (exec r k groups s)
  unfolding exec
  exec-fold (class p) b k' k h groups s = exec_class-fold p b k' k h groups s
  exec-fold (star p) b k' k h groups s = exec_star-fold p b k' k h groups s
  exec-fold (lazy_plus p) b k' k h groups s = exec_lazy-fold p b k' k h groups s
  exec-fold (seq r q) b k' k h groups s =
      exec-fold r b.0 (λ t. exec q (λ u. k' (t ++ u))) (λ t. exec q (λ u. k (t ++ u)))
        (λ t.
          exec-fold q b.1 (λ u. k' (map f t ++ u)) (λ u. k (t ++ u))
            (λ u g rest. rw (← map-append) (h (t ++ u) g rest)))
        groups s
  exec-fold (alt r q) b k' k h groups s =
      rw (exec-fold r b.0 k' k h groups s, exec-fold q b.1 k' k h groups s)
        (or_else-fold (exec r k groups s) (exec q k groups s))
  exec-fold (group r) b k' k h groups s =
      exec-fold r b (λ t g. k' t (g ++ t ∷ [])) (λ t g. k t (g ++ t ∷ []))
        (λ t g rest.
          subst (λ gs. k' (map f t) gs (map f rest) ≡ fold_result (k t (g ++ t ∷ []) rest))
            (map-append (map f) g (t ∷ [])) (h t (g ++ t ∷ []) rest))
        groups s

  at_end-fold : Folds at_end at_end
  unfolding at_end
  at_end-fold taken groups [] = refl
  at_end-fold taken groups (c ∷ rest) = refl

  pub regex_match-fold :
      (r : Regex) (s : List ℕ)
      → IsFoldable r
      → regex_match r (map f s) ≡ Option.map fold_groups (regex_match r s)
  unfolding regex_match
  regex_match-fold r s b = exec-fold r b at_end at_end at_end-fold [] s
