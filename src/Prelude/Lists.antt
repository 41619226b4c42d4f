-- ===== src/Prelude/Lists.antt =====
-- Lists measured and searched with native numbers, texts as lists of bytes, and a predicate that
-- holds of every element.
use Prim.Native.Nat.{ℕ, zero, suc, ◌+◌, ◌≤◌}
use Prim.Native.Char.{code}
use Prim.Native.String.{String}
use mathlib.Core.Path.{◌≡◌, refl, ap, subst}
use mathlib.Core.Option.{Option, none, some}
use mathlib.Core.Bool.{Bool, true, false, ◌&&◌}
use mathlib.Core.List.{List, [], ◌∷◌, ◌++◌}
use native.Mathlib.Omega.{arith}
use plazza.Prelude.Tests.{◌==◌}

-- The bytes of a text of ASCII characters.
abbrev pub codes : String → List ℕ
codes String.[] = []
codes (String.◌∷◌ c s) = code c ∷ codes s

-- `operator==` of two std::string.
unfoldable pub str_eq : List ℕ → List ℕ → Bool
str_eq [] [] = true
str_eq [] (d ∷ t) = false
str_eq (c ∷ s) [] = false
str_eq (c ∷ s) (d ∷ t) = (c == d) && str_eq s t

pub str_eq→eq : (s t : List ℕ) → str_eq s t ≡ true → s ≡ t
unfolding str_eq
str_eq→eq [] [] h = refl
str_eq→eq [] (d ∷ t) h = absurd (cc)
str_eq→eq (c ∷ s) [] h = absurd (cc)
str_eq→eq (c ∷ s) (d ∷ t) h = ground (arith, str_eq→eq s t)

pub str_eq_refl : (s : List ℕ) → str_eq s s ≡ true
unfolding str_eq
str_eq_refl [] = refl
str_eq_refl (c ∷ s) = ground (arith, str_eq_refl s)

module _ {ℓ} {A : Type ℓ} where
  abbrev pub length : List A → ℕ
  length [] = 0
  length (x ∷ xs) = suc (length xs)

  pub length-append : (xs ys : List A) → length (xs ++ ys) ≡ length xs + length ys
  length-append [] ys = omega arith
  length-append (x ∷ xs) ys = omega (arith, length-append xs ys)

  abbrev pub All {κ} : (A → Type κ) → List A → Type κ
  All P [] = Unit
  All P (x ∷ xs) = P x × All P xs

  pub All-append {κ} : (P : A → Type κ) (xs ys : List A) → All P xs → All P ys → All P (xs ++ ys)
  All-append P [] ys h k = k
  All-append P (x ∷ xs) ys h k = (h.0, All-append P xs ys h.1 k)

module _ {ℓ} {A : Type ℓ} where
  abbrev pub get_elem? : List A → ℕ → Option A
  get_elem? [] i = none
  get_elem? (x ∷ xs) zero = some x
  get_elem? (x ∷ xs) (suc i) = get_elem? xs i

  -- A write out of bounds changes nothing.
  abbrev pub set : List A → ℕ → A → List A
  set [] i v = []
  set (x ∷ xs) zero v = v ∷ xs
  set (x ∷ xs) (suc i) v = x ∷ set xs i v

  -- The sum of a weight over a list.
  abbrev pub total : (A → ℕ) → List A → ℕ
  total w [] = 0
  total w (x ∷ xs) = w x + total w xs

  pub total-append : (w : A → ℕ) (xs ys : List A) → total w (xs ++ ys) ≡ total w xs + total w ys
  total-append w [] ys = omega arith
  total-append w (x ∷ xs) ys = omega (arith, total-append w xs ys)

  pub total-set :
      (w : A → ℕ) (xs : List A) (i : ℕ) (v : A) {old : A}
      → get_elem? xs i ≡ some old
      → total w (set xs i v) + w old ≡ total w xs + w v
  total-set w [] i v h = absurd (cc)
  total-set w (x ∷ xs) zero v {old} h = let same : x ≡ old = cc in omega (arith, ap w same)
  total-set w (x ∷ xs) (suc i) v h = omega (arith, total-set w xs i v h)

  pub total-some :
      (w : A → ℕ) (xs : List A) (i : ℕ) {x : A} → get_elem? xs i ≡ some x → w x ≤ total w xs
  total-some w [] i h = absurd (cc)
  total-some w (y ∷ xs) zero {x} h = let same : y ≡ x = cc in omega (arith, ap w same)
  total-some w (y ∷ xs) (suc i) h = omega (arith, total-some w xs i h)

  pub All-set {κ} :
      (P : A → Type κ) (xs : List A) (i : ℕ) (v : A) → P v → All P xs → All P (set xs i v)
  All-set P [] i v h all = all
  All-set P (x ∷ xs) zero v h all = (h, all.1)
  All-set P (x ∷ xs) (suc i) v h all = (all.0, All-set P xs i v h all.1)

  pub All-get_elem? {κ} :
      (P : A → Type κ) (xs : List A) (i : ℕ) {v : A} → All P xs → get_elem? xs i ≡ some v → P v
  All-get_elem? P [] i all h = absurd (cc)
  All-get_elem? P (x ∷ xs) zero {v} all h = let same : x ≡ v = cc in subst P same all.0
  All-get_elem? P (x ∷ xs) (suc i) all h = All-get_elem? P xs i all.1 h
