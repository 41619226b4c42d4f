-- ===== src/Parser/Complete.antt =====
-- `parseLine` accepts every text in the grammar, in either case, and returns the order it writes.
use mathlib.Core.Option
use plazza.Prelude.{ℕ, ◌≡◌, refl, inl, inr, List, [], ◌∷◌, ◌++◌, map, arith, some, Option-cases}
use plazza.Errors.{ok}
use plazza.Pizza.{PizzaOrder}
use plazza.Regex.{exec, at_end, regex_match}
use plazza.Regex.CaseFold.{IsFoldable, regex_match-fold}
use plazza.Parser.{
  tolower, to_lower, is_space, is_letter, is_digit, is_positive_digit, is_char, pattern_of_line,
  parse_type, parse_size, parse_number, order_of_groups, parse_line,
}
use plazza.Parser.Grammar.{Writes}
use plazza.Parser.Sound.{is_space-tolower}
use plazza.Parser.Tokens.{IsTypeName-parse_type, IsSizeName-parse_size, IsNumber-parse_number}
use plazza.Parser.Found.{exec_star-run, Ends, after_name_part, name_part, type-not_space}

at_end-Ends : Ends at_end
unfolding at_end
at_end-Ends taken groups = refl

lower_match :
    (text : List ℕ) (order : PizzaOrder) (w : Writes text order)
    → regex_match pattern_of_line text ≡ some (w.name ∷ w.letters ∷ w.number ∷ [])
unfolding regex_match exec
lower_match text order w = rw w.split (
    exec_star-run is_space _ [] w.lead _ w.lead_space (type-not_space w.name _ w.named) (
      name_part (λ more. at_end (w.lead ++ more)) w.name _ w.named _
        (after_name_part (λ t. at_end (w.lead ++ (w.name ++ t))) (w.name ∷ []) w.gap w.letters
          w.gap' w.number w.trail (λ t. at_end-Ends (w.lead ++ (w.name ++ t))) w.sized w.counted
          w.gap_space w.gap'_space w.trail_space)))

letter-blind : (c : ℕ) → is_letter (tolower c) ≡ is_letter c
unfolding is_letter tolower
letter-blind c = ground arith

digit-blind : (c : ℕ) → is_digit (tolower c) ≡ is_digit c
unfolding is_digit tolower
digit-blind c = ground arith

positive-blind : (c : ℕ) → is_positive_digit (tolower c) ≡ is_positive_digit c
unfolding is_positive_digit tolower
positive-blind c = ground arith

tolower-tolower : (c : ℕ) → tolower (tolower c) ≡ tolower c
unfolding tolower
tolower-tolower c = ground arith

char-blind : (d c : ℕ) → is_char d (tolower c) ≡ is_char d c
unfolding is_char
char-blind d c = rw (tolower-tolower c)

pattern-IsFoldable : IsFoldable tolower pattern_of_line
pattern-IsFoldable =
    let x = char-blind b'X' in
    let l = char-blind b'L' in
    (
      is_space-tolower,
      (
        letter-blind,
        (
          is_space-tolower,
          (
            ((x, (x, l)), ((x, l), (char-blind b'S', (char-blind b'M', l)))),
            (
              is_space-tolower,
              ((char-blind b'x', (positive-blind, digit-blind)), is_space-tolower),
            ),
          ),
        ),
      ),
    )

groups_in_case :
    (found : List (List ℕ)) (a b c : List ℕ)
    → map to_lower found ≡ a ∷ b ∷ c ∷ []
    → (x : List ℕ) × (y : List ℕ) × (z : List ℕ) × (found ≡ x ∷ y ∷ z ∷ [])
      × (to_lower x ≡ a)
      × (to_lower y ≡ b)
      × (to_lower z ≡ c)
groups_in_case [] a b c h = absurd (cc)
groups_in_case (x ∷ []) a b c h = absurd (cc)
groups_in_case (x ∷ y ∷ []) a b c h = absurd (cc)
groups_in_case (x ∷ y ∷ z ∷ []) a b c h = (x, y, z, refl, ground arith, ground arith, ground arith)
groups_in_case (x ∷ y ∷ z ∷ v ∷ found) a b c h = absurd (cc)

-- Hence the groups of the text as it was written, up to case.
raw_match :
    (text : List ℕ) (order : PizzaOrder) (w : Writes (to_lower text) order)
    → (found : List (List ℕ)) × (regex_match pattern_of_line text ≡ some found)
      × (map to_lower found ≡ w.name ∷ w.letters ∷ w.number ∷ [])
unfolding to_lower
raw_match text order w = elim (Option-cases (regex_match pattern_of_line text)) [
  | inl e ↦ absurd (ground (arith, folded, lower_match (to_lower text) order w))
  | inr (found, e) ↦ (found, e, ground (arith, folded, lower_match (to_lower text) order w))
]
  where
    folded :
        regex_match pattern_of_line (map tolower text)
        ≡ Option.map (map (map tolower)) (regex_match pattern_of_line text)
    folded = regex_match-fold tolower pattern_of_line text pattern-IsFoldable

pub Writes-parse_line :
    (line : List ℕ) (o : PizzaOrder) → Writes (to_lower line) o → parse_line line ≡ ok o
unfolding parse_line order_of_groups
Writes-parse_line line o w =
    let (found, e, lower) = raw_match line o w in
    let (x, y, z, e', ex, ey, ez) = groups_in_case found w.name w.letters w.number lower in
    let type_ok : parse_type x ≡ ok o.type = IsTypeName-parse_type x (rw ex w.named) in
    let size_ok : parse_size y ≡ ok o.size = IsSizeName-parse_size y (rw ey w.sized) in
    let number_ok : parse_number z ≡ ok o.quantity = IsNumber-parse_number z (rw ez w.counted) in
    rw (e, parse_line, e', type_ok, size_ok, number_ok)
