-- ===== src/Parser/Tokens.antt =====
-- `parseType`, `parseSize` and `parseNumber` against the grammar of the words.
use plazza.Prelude.{ℕ, ◌≡◌, refl, inl, inr, ◌<◌, ◌^◌, List, [], ◌∷◌, codes, str_eq→eq, arith}
use plazza.Errors.{ok}
use plazza.Parser.{
  to_lower, parse_type, parse_size, parse_number, decimal, is_digit, is_positive_digit, all_digits,
  stoul_or, number_of,
}
use plazza.Parser.Grammar.{IsTypeName, IsSizeName, IsNumber}
use plazza.Regex.Meaning.{every}

pub parse_type-IsTypeName :
    (token : List ℕ) {t : ℕ} → parse_type token ≡ ok t → IsTypeName (to_lower token) t
unfolding parse_type
parse_type-IsTypeName token h = ground (
  arith,
  str_eq→eq (to_lower token) (codes "regina"),
  str_eq→eq (to_lower token) (codes "margarita"),
  str_eq→eq (to_lower token) (codes "americana"),
  str_eq→eq (to_lower token) (codes "fantasia"),
)

pub IsTypeName-parse_type :
    (token : List ℕ) {t : ℕ} → IsTypeName (to_lower token) t → parse_type token ≡ ok t
unfolding parse_type
IsTypeName-parse_type token (inl (e, q)) = rw (e, q)
IsTypeName-parse_type token (inr (inl (e, q))) = rw (e, q)
IsTypeName-parse_type token (inr (inr (inl (e, q)))) = rw (e, q)
IsTypeName-parse_type token (inr (inr (inr (e, q)))) = rw (e, q)

pub parse_size-IsSizeName :
    (token : List ℕ) {t : ℕ} → parse_size token ≡ ok t → IsSizeName (to_lower token) t
unfolding parse_size
parse_size-IsSizeName token h = ground (
  arith,
  str_eq→eq (to_lower token) (codes "s"),
  str_eq→eq (to_lower token) (codes "m"),
  str_eq→eq (to_lower token) (codes "l"),
  str_eq→eq (to_lower token) (codes "xl"),
  str_eq→eq (to_lower token) (codes "xxl"),
)

pub IsSizeName-parse_size :
    (token : List ℕ) {t : ℕ} → IsSizeName (to_lower token) t → parse_size token ≡ ok t
unfolding parse_size
IsSizeName-parse_size token (inl (e, q)) = rw (e, q)
IsSizeName-parse_size token (inr (inl (e, q))) = rw (e, q)
IsSizeName-parse_size token (inr (inr (inl (e, q)))) = rw (e, q)
IsSizeName-parse_size token (inr (inr (inr (inl (e, q))))) = rw (e, q)
IsSizeName-parse_size token (inr (inr (inr (inr (e, q))))) = rw (e, q)

all_digits-eq : (s : List ℕ) → all_digits s ≡ every is_digit s
unfolding all_digits
all_digits-eq [] = refl
all_digits-eq (c ∷ s) = rw (all_digits-eq s)

stoul_or-ok :
    (token digits : List ℕ) {n : ℕ}
    → stoul_or token digits ≡ ok n
    → (n ≡ decimal 0 digits) × (n < 2 ^ 64)
unfolding stoul_or
stoul_or-ok token digits h = ground arith

number_of-IsNumber : (token low : List ℕ) {n : ℕ} → number_of token low ≡ ok n → IsNumber low n
unfolding number_of is_positive_digit
number_of-IsNumber token [] h = absurd (cc)
number_of-IsNumber token (x ∷ []) h = absurd (ground arith)
number_of-IsNumber token (x ∷ d ∷ more) h = record {
  first = d;
  more = more;
  split = ground arith;
  positive = ground arith;
  digits = ground (arith, all_digits-eq more);
  value = ground (arith, stoul_or-ok token (d ∷ more));
  fits = ground (arith, stoul_or-ok token (d ∷ more));
}

pub parse_number-IsNumber :
    (token : List ℕ) {n : ℕ} → parse_number token ≡ ok n → IsNumber (to_lower token) n
unfolding parse_number
parse_number-IsNumber token h = number_of-IsNumber token (to_lower token) h

IsNumber-stoul_or :
    (token digits : List ℕ) {n : ℕ}
    → n ≡ decimal 0 digits
    → n < 2 ^ 64
    → stoul_or token digits ≡ ok n
unfolding stoul_or
IsNumber-stoul_or token digits e h = ground arith

pub IsNumber-parse_number :
    (token : List ℕ) {n : ℕ} → IsNumber (to_lower token) n → parse_number token ≡ ok n
unfolding parse_number number_of is_positive_digit
IsNumber-parse_number token h =
    rw (h.split, all_digits-eq h.more, h.digits)
      (ground (arith, IsNumber-stoul_or token (h.first ∷ h.more), h.positive, h.value, h.fits))
