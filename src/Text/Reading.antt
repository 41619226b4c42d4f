-- ===== src/Text/Reading.antt =====
-- A number is read back from its text, and a text is read back up to a mark that it lacks.
use plazza.Prelude.{
  ℕ, zero, suc, ◌/◌, ◌<◌, ◌≤◌, ◌≡◌, ◌≢◌, refl, sym, ap, ◌∙◌, inl, inr, ◌⊎◌, List, [], ◌∷◌, ◌++◌,
  ltb, arith, Bool-cases, All,
}
use plazza.Text.{digits, to_string}
use plazza.Parser.{decimal}

decimal-digits : (fuel n : ℕ) (s : List ℕ) → n < fuel → decimal 0 (digits fuel n s) ≡ decimal n s
unfolding digits decimal
decimal-digits zero n s h = absurd (omega arith)
decimal-digits (suc fuel) n s h = elim (Bool-cases (ltb n 10)) [
  | inl e ↦ rw (e, decimal) (ap (λ m. decimal m s) (omega arith))
  | inr e ↦
      rw (e, decimal)
        (decimal-digits fuel (n / 10) _ (ground arith) ∙ ap (λ m. decimal m s) (omega arith))
]

-- The value of the digits of a number's text is the number.
pub decimal-to_string : (n : ℕ) → decimal 0 (to_string n) ≡ n
unfolding to_string decimal
decimal-to_string n = decimal-digits (suc n) n [] (omega arith)

pub to_string-injective : (m n : ℕ) → to_string m ≡ to_string n → m ≡ n
to_string-injective m n e = sym (decimal-to_string m) ∙ ap (decimal 0) e ∙ decimal-to_string n

-- A text without the mark.
abbrev pub Lacks : ℕ → List ℕ → Type 0
Lacks c s = All (λ d. d ≢ c) s

-- A byte that is not a digit.
abbrev pub IsMark : ℕ → Type 0
IsMark c = (c < b'0') ⊎ (b'9' < c)

not_mark : (c d : ℕ) → IsMark c → b'0' ≤ d → d ≤ b'9' → d ≢ c
not_mark c d (inl h) l u e = omega arith
not_mark c d (inr h) l u e = omega arith

digits-Lacks :
    (c : ℕ) → IsMark c → (fuel n : ℕ) (s : List ℕ) → Lacks c s → Lacks c (digits fuel n s)
unfolding digits
digits-Lacks c apart zero n s h = h
digits-Lacks c apart (suc fuel) n s h = elim (Bool-cases (ltb n 10)) [
  | inl e ↦ rw (e, digits) (not_mark c _ apart (omega arith) (ground arith), h)
  | inr e ↦
      rw (e, digits)
        (digits-Lacks c apart fuel (n / 10) _ (not_mark c _ apart (omega arith) (omega arith), h))
]

pub to_string-Lacks : (c : ℕ) → IsMark c → (n : ℕ) → Lacks c (to_string n)
unfolding to_string
to_string-Lacks c apart n = digits-Lacks c apart (suc n) n [] tt

-- Two texts that end at the mark, and what follows it.
pub read_until :
    (c : ℕ) (xs ys s t : List ℕ)
    → Lacks c xs
    → Lacks c ys
    → xs ++ (c ∷ s) ≡ ys ++ (c ∷ t)
    → (xs ≡ ys) × (s ≡ t)
read_until c [] [] s t h k e = (refl, cc)
read_until c [] (y ∷ ys) s t h k e = absurd (k.0 (cc))
read_until c (x ∷ xs) [] s t h k e = absurd (h.0 (cc))
read_until c (x ∷ xs) (y ∷ ys) s t h k e =
    let tails : xs ++ (c ∷ s) ≡ ys ++ (c ∷ t) = cc in
    let (same, rest) = read_until c xs ys s t h.1 k.1 tails in (cc, rest)

abbrev pub first_or_zero : List ℕ → ℕ
first_or_zero [] = 0
first_or_zero (c ∷ s) = c

pub first_same : {c d : ℕ} {s t : List ℕ} → c ∷ s ≡ d ∷ t → c ≡ d
first_same e = ap first_or_zero e

pub after_same : (l s t : List ℕ) → l ++ s ≡ l ++ t → s ≡ t
after_same [] s t e = e
after_same (c ∷ l) s t e = after_same l s t (cc)

-- A number, up to a mark that is not a digit.
pub read_number :
    (c : ℕ)
    → IsMark c
    → (m n : ℕ) (s t : List ℕ) → to_string m ++ (c ∷ s) ≡ to_string n ++ (c ∷ t)
    → (m ≡ n) × (s ≡ t)
read_number c apart m n s t e =
    let (same, rest) =
      read_until c (to_string m) (to_string n) s t (to_string-Lacks c apart m)
        (to_string-Lacks c apart n) e in
    (to_string-injective m n same, rest)
