-- ===== src/Regex/Matcher.antt =====
-- The backtracking matcher against the meaning of patterns: it finds only matches, and it finds
-- one wherever there is one.
use plazza.Prelude.{
  or_else, ℕ, ◌≡◌, ◌≢◌, refl, sym, ap, subst, ◌∙◌, ◌⊎◌, inl, inr, Bool, true, List, [], ◌∷◌, ◌++◌,
  Option, none, some, arith, append-nil, append_assoc, Bool-cases,
}
use plazza.Regex.{
  Regex, class, star, lazy_plus, seq, alt, group, Cont, exec_star, exec_lazy, exec_class, exec,
  at_end, regex_match,
}
use plazza.Regex.Meaning.{every, Matches}

-- A successful attempt of `r` on `s`, continued by `k`.
abbrev Found : Regex → Cont → List (List ℕ) → List ℕ → List (List ℕ) → Type 0
Found r k groups s out =
    (taken : List ℕ) × (rest : List ℕ) × (g : List (List ℕ)) × (s ≡ taken ++ rest)
    × Matches r taken g
    × (k taken (groups ++ g) rest ≡ some out)

or_else-eq-some {ℓ} :
    {A : Type ℓ} (a b : Option A) {x : A} → or_else a b ≡ some x → (a ≡ some x) ⊎ (b ≡ some x)
or_else-eq-some none b h = inr h
or_else-eq-some (some a) b h = inl h

exec_star_sound :
    (p : ℕ → Bool) (k : Cont) (groups : List (List ℕ)) (s : List ℕ) {out : List (List ℕ)}
    → exec_star p k groups s ≡ some out
    → Found (star p) k groups s out
unfolding exec_star
exec_star_sound p k groups [] h = ([], [], [], refl, (refl, refl), rw append-nil h)
exec_star_sound p k groups (c ∷ s) {out} h = elim (Bool-cases (p c)) [
  | inr e ↦ ([], c ∷ s, [], refl, (refl, refl), rw append-nil (rw e at h))
  | inl e ↦ elim (or_else-eq-some (exec_star p (λ taken. k (c ∷ taken)) groups s) _ (rw e at h)) [
    | inr now ↦ ([], c ∷ s, [], refl, (refl, refl), rw append-nil now)
    | inl later ↦
        let (taken, rest, g, split, (all, bare), done) =
          exec_star_sound p (λ taken. k (c ∷ taken)) groups s later in
        (c ∷ taken, rest, g, ap (◌∷◌ c) split, (rw e all, bare), done)
  ]
]

exec_lazy_sound :
    (p : ℕ → Bool) (k : Cont) (groups : List (List ℕ)) (s : List ℕ) {out : List (List ℕ)}
    → exec_lazy p k groups s ≡ some out
    → Found (lazy_plus p) k groups s out
unfolding exec_lazy
exec_lazy_sound p k groups [] h = absurd (cc)
exec_lazy_sound p k groups (c ∷ s) {out} h = elim (Bool-cases (p c)) [
  | inr e ↦ absurd (ground arith)
  | inl e ↦ elim (or_else-eq-some (k (c ∷ []) groups s) _ (rw e at h)) [
    | inl now ↦ (c ∷ [], s, [], refl, (rw e, λ q. cc, refl), rw append-nil now)
    | inr later ↦
        let (taken, rest, g, split, (all, _, bare), done) =
          exec_lazy_sound p (λ taken. k (c ∷ taken)) groups s later in
        (c ∷ taken, rest, g, ap (◌∷◌ c) split, (rw e all, λ q. cc, bare), done)
  ]
]

exec_class_sound :
    (p : ℕ → Bool) (k : Cont) (groups : List (List ℕ)) (s : List ℕ) {out : List (List ℕ)}
    → exec_class p k groups s ≡ some out
    → Found (class p) k groups s out
unfolding exec_class
exec_class_sound p k groups [] h = absurd (cc)
exec_class_sound p k groups (c ∷ s) h = elim (Bool-cases (p c)) [
  | inr e ↦ absurd (ground arith)
  | inl e ↦ (c ∷ [], s, [], refl, (c, refl, e, refl), rw append-nil (rw e at h))
]

exec_sound :
    (r : Regex) (k : Cont) (groups : List (List ℕ)) (s : List ℕ) {out : List (List ℕ)}
    → exec r k groups s ≡ some out
    → Found r k groups s out
unfolding exec
exec_sound (class p) k groups s h = exec_class_sound p k groups s h
exec_sound (star p) k groups s h = exec_star_sound p k groups s h
exec_sound (lazy_plus p) k groups s h = exec_lazy_sound p k groups s h
exec_sound (seq r q) k groups s h =
    let (s₁, rest₁, g₁, e₁, m₁, h₁) =
      exec_sound r (λ taken. exec q (λ more. k (taken ++ more))) groups s h in
    let (s₂, rest₂, g₂, e₂, m₂, h₂) =
      exec_sound q (λ more. k (s₁ ++ more)) (groups ++ g₁) rest₁ h₁ in
    (
      s₁ ++ s₂,
      rest₂,
      g₁ ++ g₂,
      e₁ ∙ ap (◌++◌ s₁) e₂ ∙ sym (append_assoc s₁ s₂ rest₂),
      (s₁, s₂, g₁, g₂, refl, refl, m₁, m₂),
      rw (← append_assoc groups g₁ g₂) h₂,
    )
exec_sound (alt r q) k groups s h = elim (or_else-eq-some (exec r k groups s) _ h) [
  | inl first ↦
      let (taken, rest, g, e, m, done) = exec_sound r k groups s first in
      (taken, rest, g, e, inl m, done)
  | inr second ↦
      let (taken, rest, g, e, m, done) = exec_sound q k groups s second in
      (taken, rest, g, e, inr m, done)
]
exec_sound (group r) k groups s h =
    let (taken, rest, g, e, m, done) =
      exec_sound r (λ taken found. k taken (found ++ taken ∷ [])) groups s h in
    (taken, rest, g ++ taken ∷ [], e, (g, refl, m), rw (← append_assoc groups g _) done)

at_end_sound :
    (taken rest : List ℕ) (groups : List (List ℕ)) {out : List (List ℕ)}
    → at_end taken groups rest ≡ some out
    → (rest ≡ []) × (groups ≡ out)
unfolding at_end
at_end_sound taken [] groups h = (refl, cc)
at_end_sound taken (c ∷ rest) groups h = absurd (cc)

-- What `regex_match` returns is a match of the whole text with its groups.
pub regex_match-Matches :
    (r : Regex) (s : List ℕ) {out : List (List ℕ)} → regex_match r s ≡ some out → Matches r s out
unfolding regex_match
regex_match-Matches r s h =
    let (taken, rest, g, e, m, done) = exec_sound r at_end [] s h in
    let (empty, same) = at_end_sound taken rest g done in
    rw (e, empty, append-nil taken) (subst (Matches r taken) same m)

-- An attempt that succeeds in some way.
abbrev Succeeds : Option (List (List ℕ)) → Type 0
Succeeds o = (out : List (List ℕ)) × (o ≡ some out)

or_else-Succeeds_left : (a b : Option (List (List ℕ))) → Succeeds a → Succeeds (or_else a b)
or_else-Succeeds_left none b (out, h) = absurd (cc)
or_else-Succeeds_left (some a) b (out, h) = (a, refl)

or_else-Succeeds_right : (a b : Option (List (List ℕ))) → Succeeds b → Succeeds (or_else a b)
or_else-Succeeds_right none b h = h
or_else-Succeeds_right (some a) b h = (a, refl)

exec_star-Succeeds :
    (p : ℕ → Bool) (k : Cont) (groups : List (List ℕ)) (taken rest : List ℕ)
    → every p taken ≡ true
    → Succeeds (k taken groups rest)
    → Succeeds (exec_star p k groups (taken ++ rest))
unfolding exec_star
exec_star-Succeeds p k groups [] [] all h = h
exec_star-Succeeds p k groups [] (c ∷ rest) all h = elim (Bool-cases (p c)) [
  | inl e ↦ rw e (or_else-Succeeds_right (exec_star p (λ taken. k (c ∷ taken)) groups rest) _ h)
  | inr e ↦ rw e h
]
exec_star-Succeeds p k groups (c ∷ taken) rest all h =
    let yes_c : p c ≡ true = ground arith in
    rw yes_c (
      or_else-Succeeds_left _ _
        (exec_star-Succeeds p (λ more. k (c ∷ more)) groups taken rest (ground arith) h))

exec_lazy-Succeeds :
    (p : ℕ → Bool) (k : Cont) (groups : List (List ℕ)) (taken rest : List ℕ)
    → every p taken ≡ true
    → taken ≢ []
    → Succeeds (k taken groups rest)
    → Succeeds (exec_lazy p k groups (taken ++ rest))
unfolding exec_lazy
exec_lazy-Succeeds p k groups [] rest all some_byte h = absurd (some_byte refl)
exec_lazy-Succeeds p k groups (c ∷ []) rest all some_byte h =
    let yes_c : p c ≡ true = ground arith in rw yes_c (or_else-Succeeds_left _ _ h)
exec_lazy-Succeeds p k groups (c ∷ d ∷ taken) rest all some_byte h =
    let yes_c : p c ≡ true = ground arith in
    rw yes_c (
      or_else-Succeeds_right (k (c ∷ []) groups (d ∷ taken ++ rest)) _ (
        exec_lazy-Succeeds p (λ more. k (c ∷ more)) groups (d ∷ taken) rest (ground arith) (λ q. cc)
          h))

exec_class-Succeeds :
    (p : ℕ → Bool) (k : Cont) (groups : List (List ℕ)) (taken rest : List ℕ) (c : ℕ)
    → taken ≡ c ∷ []
    → p c ≡ true
    → Succeeds (k taken groups rest)
    → Succeeds (exec_class p k groups (taken ++ rest))
unfolding exec_class
exec_class-Succeeds p k groups taken rest c e yes_c h = rw (e, yes_c) (rw e at h)

exec-Succeeds :
    (r : Regex) (k : Cont) (groups : List (List ℕ)) (taken rest : List ℕ) (g : List (List ℕ))
    → Matches r taken g
    → Succeeds (k taken (groups ++ g) rest)
    → Succeeds (exec r k groups (taken ++ rest))
unfolding exec
exec-Succeeds (class p) k groups taken rest g (c, e, yes_c, bare) h =
    exec_class-Succeeds p k groups taken rest c e yes_c (rw (bare, append-nil) at h)
exec-Succeeds (star p) k groups taken rest g (all, bare) h =
    exec_star-Succeeds p k groups taken rest all (rw (bare, append-nil) at h)
exec-Succeeds (lazy_plus p) k groups taken rest g (all, some_byte, bare) h =
    exec_lazy-Succeeds p k groups taken rest all some_byte (rw (bare, append-nil) at h)
exec-Succeeds (seq r q) k groups taken rest g (s₁, s₂, g₁, g₂, e, eg, m₁, m₂) h =
    rw (e, append_assoc s₁ s₂ rest)
      (exec-Succeeds r (λ first. exec q (λ more. k (first ++ more))) groups s₁ (s₂ ++ rest) g₁ m₁
        (exec-Succeeds q (λ more. k (s₁ ++ more)) (groups ++ g₁) s₂ rest g₂ m₂
          (rw (append_assoc groups g₁ g₂) (rw (e, eg) at h))))
exec-Succeeds (alt r q) k groups taken rest g (inl m) h =
    or_else-Succeeds_left _ _ (exec-Succeeds r k groups taken rest g m h)
exec-Succeeds (alt r q) k groups taken rest g (inr m) h =
    or_else-Succeeds_right (exec r k groups (taken ++ rest)) _
      (exec-Succeeds q k groups taken rest g m h)
exec-Succeeds (group r) k groups taken rest g (inner, e, m) h =
    exec-Succeeds r (λ taken found. k taken (found ++ taken ∷ [])) groups taken rest inner m
      (rw append_assoc (rw e at h))

-- Where the text has a match, `regex_match` returns one.
pub regex_match-found :
    (r : Regex) (s : List ℕ) (g : List (List ℕ))
    → Matches r s g
    → (out : List (List ℕ)) × (regex_match r s ≡ some out) × Matches r s out
unfolding regex_match at_end
regex_match-found r s g m =
    let (out, e) = exec-Succeeds r at_end [] s [] g m (g, refl) in
    let e' : exec r at_end [] s ≡ some out = rw (append-nil s) at e in
    (out, e', regex_match-Matches r s e')
