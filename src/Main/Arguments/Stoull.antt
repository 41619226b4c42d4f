-- ===== src/Main/Arguments/Stoull.antt =====
-- The decimal text of a number below 2 ^ 64 is read as the number, and with a minus before it as
-- what it is modulo 2 ^ 64.
use plazza.Prelude.{
  ℕ, zero, suc, ◌-◌, ◌^◌, ◌<◌, ◌≤◌, ◌≡◌, refl, sym, ap, ◌∙◌, Bool, true, false, ◌||◌, List, [], ◌∷◌,
  ltb, leb, ◌==◌, ◌/◌, ◌&&◌, subst, arith, All, inl, inr, Bool-cases,
}
use plazza.Errors.{ok}
use plazza.Text.{digits, to_string}
use plazza.Text.Reading.{decimal-to_string}
use plazza.Parser.{is_digit, decimal}
use plazza.Main.Arguments.{skip_spaces, leading_digits, signed, value_of, unsigned_part, stoull}

abbrev AllDigits : List ℕ → Type 0
AllDigits s = All (λ c. (b'0' ≤ c) × (c ≤ b'9')) s

digits-AllDigits : (fuel n : ℕ) (s : List ℕ) → AllDigits s → AllDigits (digits fuel n s)
unfolding digits
digits-AllDigits zero n s h = h
digits-AllDigits (suc fuel) n s h = elim (Bool-cases (ltb n 10)) [
  | inl e ↦ rw (e, digits) ((omega arith, ground arith), h)
  | inr e ↦ rw (e, digits) (digits-AllDigits fuel _ _ ((omega arith, omega arith), h))
]

leading_digits-AllDigits : (s : List ℕ) → AllDigits s → leading_digits s ≡ s
unfolding is_digit
leading_digits-AllDigits [] h = refl
leading_digits-AllDigits (c ∷ s) h =
    let d : is_digit c ≡ true = ground (arith, h.0) in
    rw d (ap (λ r. c ∷ r) (leading_digits-AllDigits s h.1))

-- A text that is not empty.
abbrev Cons : List ℕ → Type 0
Cons s = (c : ℕ) × (r : List ℕ) × (s ≡ c ∷ r)

digits-Cons : (fuel n c : ℕ) (s : List ℕ) → Cons (digits fuel n (c ∷ s))
unfolding digits
digits-Cons zero n c s = (c, s, refl)
digits-Cons (suc fuel) n c s = elim (Bool-cases (ltb n 10)) [
  | inl e ↦ rw (e, digits) (_, _, refl)
  | inr e ↦ rw (e, digits) (digits-Cons fuel (n / 10) _ (c ∷ s))
]

to_string-Cons : (n : ℕ) → Cons (to_string n)
unfolding to_string digits
to_string-Cons n = elim (Bool-cases (ltb n 10)) [
  | inl e ↦ rw (e, digits) (_, _, refl)
  | inr e ↦ rw (e, digits) (digits-Cons n (n / 10) _ [])
]

to_string-AllDigits : (n : ℕ) → AllDigits (to_string n)
unfolding to_string
to_string-AllDigits n = digits-AllDigits (suc n) n [] tt

-- Digits without a sign, and with a minus.
unsigned_part-digits :
    (c : ℕ) (s : List ℕ)
    → AllDigits (c ∷ s)
    → unsigned_part (skip_spaces (c ∷ s)) ≡ value_of false (c ∷ s)
unsigned_part-digits c s h =
    let space : ((c == b' ') || (leb 9 c && leb c 13)) ≡ false = ground (arith, h.0) in
    let minus : (c == b'-') ≡ false = ground (arith, h.0) in
    let plus : (c == b'+') ≡ false = ground (arith, h.0) in
    rw (space, minus, plus) (ap (value_of false) (leading_digits-AllDigits (c ∷ s) h))

value_of-fits :
    (negative : Bool) (s : List ℕ)
    → Cons s
    → decimal 0 s < 2 ^ 64
    → value_of negative s ≡ ok (signed negative (decimal 0 s))
value_of-fits negative [] (c, r, e) h = absurd (cc)
value_of-fits negative (c ∷ s) k h =
    let fits : ltb (decimal 0 (c ∷ s)) (2 ^ 64) ≡ true = ground (arith, h) in rw fits refl

value_of-to_string :
    (negative : Bool) (n : ℕ)
    → n < 2 ^ 64
    → value_of negative (to_string n) ≡ ok (signed negative n)
value_of-to_string negative n h =
    let same = decimal-to_string n in
    value_of-fits negative (to_string n) (to_string-Cons n) (omega (arith, same))
    ∙ ap (λ m. ok (signed negative m)) same

pub stoull-to_string : (n : ℕ) → n < 2 ^ 64 → stoull (to_string n) ≡ ok n
unfolding stoull
stoull-to_string n h =
    let (c, s, e) = to_string-Cons n in
    let all : AllDigits (c ∷ s) = subst AllDigits e (to_string-AllDigits n) in
    ap (λ t. unsigned_part (skip_spaces t)) e
    ∙ unsigned_part-digits c s all
    ∙ ap (value_of false) (sym e)
    ∙ value_of-to_string false n h

pub stoull-minus : (n : ℕ) → 0 < n → n < 2 ^ 64 → stoull (b'-' ∷ to_string n) ≡ ok (2 ^ 64 - n)
unfolding stoull
stoull-minus n l h =
    ap (value_of true) (leading_digits-AllDigits (to_string n) (to_string-AllDigits n))
    ∙ value_of-to_string true n h
    ∙ ap ok (omega arith)
