-- ===== src/Parser.antt =====
-- parser/Parser.cpp: from a line of bytes to the orders in it.
pub mod Tests
pub mod Grammar
pub mod Tokens
pub mod Sound
pub mod Found
pub mod Complete
pub mod Segments
pub mod Alphabet
pub mod Lines
pub mod Examples
use plazza.Prelude.{
  ℕ, ◌+◌, ◌-◌, ◌*◌, ◌^◌, ◌≡◌, refl, Bool, true, false, not, ◌&&◌, ◌||◌, List, [], ◌∷◌, ◌++◌, map,
  Option, none, some, codes, str_eq, ltb, leb, ◌==◌, if◌then◌else◌,
}
use plazza.Errors.{
  Result, ok, thrown, ◌>>=◌, thrown_error, k_empty_order_segment, k_empty_order, k_invalid_token,
  k_unknown_pizza_type, k_unknown_pizza_size, k_invalid_number_format_expected,
  k_quantity_must_be_positive, k_invalid_number_format,
}
use plazza.Pizza.{PizzaType, PizzaSize, PizzaOrder}
use plazza.Pizza
use plazza.Regex.{Regex, class, star, lazy_plus, seq, alt, group, regex_match}

-- `std::tolower` in the C locale.
unfoldable pub tolower : ℕ → ℕ
tolower c = if leb b'A' c && leb c b'Z' then c + 32 else c

unfoldable pub to_lower : List ℕ → List ℕ
unfolding tolower
to_lower str = map tolower str

-- The classes of the pattern, under `std::regex::icase` and the C locale.
unfoldable pub is_space : ℕ → Bool
is_space c = (leb 9 c && leb c 13) || (c == 32)

unfoldable pub is_letter : ℕ → Bool
is_letter c = (leb b'A' c && leb c b'Z') || (leb b'a' c && leb c b'z')

unfoldable pub is_digit : ℕ → Bool
is_digit c = leb b'0' c && leb c b'9'

unfoldable pub is_positive_digit : ℕ → Bool
is_positive_digit c = leb b'1' c && leb c b'9'

-- A letter of the pattern, in either case.
unfoldable pub is_char : ℕ → ℕ → Bool
unfolding tolower
is_char d c = tolower c == tolower d

abbrev pub size_pattern : Regex
size_pattern =
    alt (seq (class (is_char b'X')) (seq (class (is_char b'X')) (class (is_char b'L')))) (
      alt (seq (class (is_char b'X')) (class (is_char b'L')))
        (alt (class (is_char b'S')) (alt (class (is_char b'M')) (class (is_char b'L')))))

abbrev pub number_pattern : Regex
number_pattern = seq (class (is_char b'x')) (seq (class is_positive_digit) (star is_digit))

-- The pattern of `parseLine`. Its anchors say what `regex_match` demands anyway.
abbrev pub pattern_of_line : Regex
pattern_of_line = seq (star is_space) (
    seq (group (lazy_plus is_letter)) (
      seq (star is_space) (
        seq (group size_pattern)
          (seq (star is_space) (seq (group number_pattern) (star is_space))))))

unfoldable pub parse_type : List ℕ → Result PizzaType
unfolding to_lower str_eq thrown_error
parse_type token =
    let low = to_lower token in
    if str_eq low (codes "regina")
    then ok Pizza.regina
    else if str_eq low (codes "margarita")
    then ok Pizza.margarita
    else if str_eq low (codes "americana")
    then ok Pizza.americana
    else if str_eq low (codes "fantasia")
    then ok Pizza.fantasia
    else thrown_error (k_unknown_pizza_type ++ token)

unfoldable pub parse_size : List ℕ → Result PizzaSize
unfolding to_lower str_eq thrown_error
parse_size token =
    let low = to_lower token in
    if str_eq low (codes "s")
    then ok Pizza.s
    else if str_eq low (codes "m")
    then ok Pizza.m
    else if str_eq low (codes "l")
    then ok Pizza.l
    else if str_eq low (codes "xl")
    then ok Pizza.xl
    else if str_eq low (codes "xxl")
    then ok Pizza.xxl
    else thrown_error (k_unknown_pizza_size ++ token)

-- The value of a run of decimal digits.
unfoldable pub decimal : ℕ → List ℕ → ℕ
decimal acc [] = acc
decimal acc (c ∷ s) = decimal (acc * 10 + (c - b'0')) s

-- `std::stoul` of a run of digits, on a 64-bit unsigned long: `none` is std::out_of_range.
unfoldable pub stoul : List ℕ → Option ℕ
unfolding decimal
stoul s = if ltb (decimal 0 s) (2 ^ 64) then some (decimal 0 s) else none

-- The loop over the characters from the third on.
unfoldable pub all_digits : List ℕ → Bool
unfolding is_digit
all_digits [] = true
all_digits (c ∷ s) = is_digit c && all_digits s

-- `std::stoul` in its try block: the exception is thrown on with the program's own message.
unfoldable pub stoul_or : List ℕ → List ℕ → Result ℕ
unfolding stoul thrown_error
stoul_or token digits = elim (stoul digits) [
  | none ↦ thrown_error (k_invalid_number_format ++ token)
  | some n ↦ ok n
]

-- `parseNumber` behind `toLower`: the tests on the length and the characters of `low`.
unfoldable pub number_of : List ℕ → List ℕ → Result ℕ
unfolding all_digits stoul_or thrown_error
number_of token [] = thrown_error (k_invalid_number_format_expected ++ token)
number_of token (x ∷ []) =
    if not (x == b'x')
    then thrown_error (k_invalid_number_format_expected ++ token)
    else thrown_error (k_quantity_must_be_positive ++ token)
number_of token (x ∷ d ∷ more) =
    if not (x == b'x')
    then thrown_error (k_invalid_number_format_expected ++ token)
    else if ltb d b'1' || ltb b'9' d
    then thrown_error (k_quantity_must_be_positive ++ token)
    else if not (all_digits more)
    then thrown_error (k_invalid_number_format ++ token)
    else stoul_or token (d ∷ more)

unfoldable pub parse_number : List ℕ → Result ℕ
unfolding to_lower number_of
parse_number token = number_of token (to_lower token)

-- `parseLine` behind the match: `match[1]`, `match[2]` and `match[3]`.
unfoldable pub order_of_groups : List (List ℕ) → Result PizzaOrder
unfolding parse_type parse_size parse_number thrown_error
order_of_groups (name ∷ letters ∷ number ∷ []) = do
  type ← parse_type name
  size ← parse_size letters
  quantity ← parse_number number
  ok (record { type = type; size = size; quantity = quantity })
order_of_groups _ = thrown_error k_invalid_token

unfoldable pub parse_line : List ℕ → Result PizzaOrder
unfolding order_of_groups regex_match is_space is_letter is_digit is_positive_digit is_char
parse_line line = elim (regex_match pattern_of_line line) [
  | none ↦ thrown_error k_invalid_token
  | some groups ↦ order_of_groups groups
]

-- The set " \t\r\n" of `find_last_not_of` and `find_first_not_of`.
unfoldable pub is_blank : ℕ → Bool
is_blank c = (c == 32) || (c == 9) || (c == 13) || (c == 10)

-- The character at `find_last_not_of(" \t\r\n")`; `none` is npos.
unfoldable pub last_not_blank : List ℕ → Option ℕ
unfolding is_blank
last_not_blank [] = none
last_not_blank (c ∷ line) = elim (last_not_blank line) [
  | some d ↦ some d
  | none ↦ if is_blank c then none else some c
]

-- `find_first_not_of(" \t\r\n") == npos`.
unfoldable pub all_blank : List ℕ → Bool
unfolding is_blank
all_blank [] = true
all_blank (c ∷ segment) = is_blank c && all_blank segment

unfoldable pub extend_first : ℕ → List (List ℕ) → List (List ℕ)
extend_first c [] = (c ∷ []) ∷ []
extend_first c (segment ∷ segments) = (c ∷ segment) ∷ segments

-- What the calls of `std::getline(iss, segment, ';')` deliver before the first that fails: a
-- text that ends in ';' has no empty segment behind it.
unfoldable pub getlines : List ℕ → List (List ℕ)
unfolding extend_first
getlines [] = []
getlines (c ∷ line) =
    let rest = getlines line in if c == b';' then [] ∷ rest else extend_first c rest

-- The `while` loop of `parse`.
unfoldable pub parse_segments : List (List ℕ) → Result (List PizzaOrder)
unfolding all_blank parse_line
parse_segments [] = ok []
parse_segments (segment ∷ segments) =
    if all_blank segment
    then thrown_error k_empty_order_segment
    else do order ← parse_line segment; orders ← parse_segments segments; ok (order ∷ orders)

unfoldable pub reject_empty : List PizzaOrder → Result (List PizzaOrder)
unfolding thrown_error
reject_empty [] = thrown_error k_empty_order
reject_empty (order ∷ orders) = ok (order ∷ orders)

abbrev pub ends_open : Option ℕ → Bool
ends_open none = false
ends_open (some c) = c == b';'

unfoldable pub parse : List ℕ → Result (List PizzaOrder)
unfolding last_not_blank getlines parse_segments reject_empty thrown_error
parse line =
    if ends_open (last_not_blank line)
    then thrown_error k_empty_order_segment
    else parse_segments (getlines line) >>= reject_empty
