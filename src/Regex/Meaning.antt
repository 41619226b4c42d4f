-- ===== src/Regex/Meaning.antt =====
-- What a pattern means, with no order of attempts: the texts that it matches, and their groups.
use plazza.Prelude.{ℕ, ◌≡◌, ◌≢◌, ◌⊎◌, Bool, true, ◌&&◌, List, [], ◌∷◌, ◌++◌}
use plazza.Regex.{Regex, class, star, lazy_plus, seq, alt, group}

abbrev pub every : (ℕ → Bool) → List ℕ → Bool
every p [] = true
every p (c ∷ s) = p c && every p s

abbrev pub Matches : Regex → List ℕ → List (List ℕ) → Type 0
Matches (class p) s g = (c : ℕ) × (s ≡ c ∷ []) × (p c ≡ true) × (g ≡ [])
Matches (star p) s g = (every p s ≡ true) × (g ≡ [])
Matches (lazy_plus p) s g = (every p s ≡ true) × (s ≢ []) × (g ≡ [])
Matches (seq r q) s g =
    (s₁ : List ℕ) × (s₂ : List ℕ) × (g₁ : List (List ℕ)) × (g₂ : List (List ℕ)) × (s ≡ s₁ ++ s₂)
    × (g ≡ g₁ ++ g₂)
    × Matches r s₁ g₁
    × Matches q s₂ g₂
Matches (alt r q) s g = Matches r s g ⊎ Matches q s g
Matches (group r) s g = (inner : List (List ℕ)) × (g ≡ inner ++ s ∷ []) × Matches r s inner
