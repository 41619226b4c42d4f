-- ===== src/Concurrency/Places.antt =====
-- Objects that a program keeps in numbered places, where `none` is a place with no object, and
-- what they own in all.
use plazza.Prelude.{
  ℕ, zero, suc, ◌+◌, ◌≡◌, refl, ◌∙◌, false, List, [], ◌∷◌, Option, some, get_elem?, set, total,
  total-set, ◌==◌, if◌then◌else◌, arith,
}

-- How often a number stands in a log.
abbrev pub count : ℕ → List ℕ → ℕ
count n [] = 0
count n (m ∷ log) = if m == n then suc (count n log) else count n log

module _ {A : Type 0} where
  abbrev pub at : List (Option A) → ℕ → Option (Option A)
  at objects i = get_elem? objects i

  get_elem?-set_other :
      (i j : ℕ) (xs : List (Option A)) (v : Option A)
      → (i == j) ≡ false
      → get_elem? (set xs i v) j ≡ get_elem? xs j
  get_elem?-set_other i j [] v e = refl
  get_elem?-set_other zero zero (x ∷ xs) v e = absurd (ground arith)
  get_elem?-set_other zero (suc j) (x ∷ xs) v e = refl
  get_elem?-set_other (suc i) zero (x ∷ xs) v e = refl
  get_elem?-set_other (suc i) (suc j) (x ∷ xs) v e = get_elem?-set_other i j xs v (ground arith)

  -- The object of one place goes to another, where what stood goes, and an object that owns
  -- nothing stays.
  pub total-move :
      (owned : Option A → ℕ) (i j : ℕ) (xs : List (Option A)) (p left : A) (old : Option A)
      → owned (some left) ≡ 0
      → (i == j) ≡ false
      → get_elem? xs i ≡ some old
      → get_elem? xs j ≡ some (some p)
      → total owned (set (set xs i (some p)) j (some left)) + owned old ≡ total owned xs
  total-move owned i j xs p left old nothing e at_i at_j = omega (
    arith,
    nothing,
    total-set owned xs i (some p) at_i,
    total-set owned (set xs i (some p)) j (some left)
        (get_elem?-set_other i j xs (some p) e ∙ at_j),
  )
