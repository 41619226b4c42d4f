-- ===== src/Parser/Sound.antt =====
-- What `parseLine` accepts is in the grammar, with the order that it writes.
use plazza.Prelude.{
  ℕ, ◌≡◌, refl, ap, inl, inr, ◌∙◌, true, List, [], ◌∷◌, ◌++◌, map-append, arith, Option-cases,
}
use plazza.Errors.{ok, ok_steps}
use plazza.Pizza.{PizzaOrder}
use plazza.Regex.{regex_match}
use plazza.Regex.Matcher.{regex_match-Matches}
use plazza.Regex.Meaning.{every, Matches}
use plazza.Parser.{
  tolower, to_lower, is_space, size_pattern, number_pattern, pattern_of_line, parse_type,
  parse_size, parse_number, order_of_groups, parse_line,
}
use plazza.Parser.Grammar.{Writes}
use plazza.Parser.Tokens.{parse_type-IsTypeName, parse_size-IsSizeName, parse_number-IsNumber}

pub is_space-tolower : (c : ℕ) → is_space (tolower c) ≡ is_space c
unfolding is_space tolower
is_space-tolower c = ground arith

every_space-lower : (w : List ℕ) → every is_space w ≡ true → every is_space (to_lower w) ≡ true
unfolding to_lower
every_space-lower [] h = refl
every_space-lower (c ∷ w) h = ground (arith, is_space-tolower c, every_space-lower w)

-- The parts of a match of the pattern.
record Parts (s : List ℕ) (groups : List (List ℕ)) : Type 0 where
  lead : List ℕ
  name : List ℕ
  gap : List ℕ
  letters : List ℕ
  gap' : List ℕ
  number : List ℕ
  trail : List ℕ
  split : s ≡ lead ++ (name ++ (gap ++ (letters ++ (gap' ++ (number ++ trail)))))
  found : groups ≡ name ∷ letters ∷ number ∷ []
  lead_space : every is_space lead ≡ true
  gap_space : every is_space gap ≡ true
  gap'_space : every is_space gap' ≡ true
  trail_space : every is_space trail ≡ true

size-no_groups : (z : List ℕ) (g : List (List ℕ)) → Matches size_pattern z g → g ≡ []
size-no_groups z g m = ground arith

number-no_groups : (z : List ℕ) (g : List (List ℕ)) → Matches number_pattern z g → g ≡ []
number-no_groups z g m = ground arith

parts : (s : List ℕ) (groups : List (List ℕ)) → Matches pattern_of_line s groups → Parts s groups
parts s groups
      (
        lead,
        r₁,
        g₁,
        h₁,
        e₁,
        eg₁,
        (a₁, b₁),
        (
          name,
          r₂,
          g₂,
          h₂,
          e₂,
          eg₂,
          (i₂, q₂, (_, _, b₂)),
          (
            gap,
            r₃,
            g₃,
            h₃,
            e₃,
            eg₃,
            (a₃, b₃),
            (
              letters,
              r₄,
              g₄,
              h₄,
              e₄,
              eg₄,
              (i₄, q₄, m₄),
              (
                gap',
                r₅,
                g₅,
                h₅,
                e₅,
                eg₅,
                (a₅, b₅),
                (number, trail, g₆, h₆, e₆, eg₆, (i₆, q₆, m₆), (a₇, b₇)),
              ),
            ),
          ),
        ),
      ) =
    record {
      lead = lead;
      name = name;
      gap = gap;
      letters = letters;
      gap' = gap';
      number = number;
      trail = trail;
      split = rw (e₁, e₂, e₃, e₄, e₅, e₆);
      found = rw (
        eg₁,
        b₁,
        eg₂,
        q₂,
        b₂,
        eg₃,
        b₃,
        eg₄,
        q₄,
        size-no_groups letters i₄ m₄,
        eg₅,
        b₅,
        eg₆,
        q₆,
        number-no_groups number i₆ m₆,
        b₇,
      );
      lead_space = a₁;
      gap_space = a₃;
      gap'_space = a₅;
      trail_space = a₇;
    }

order_of_groups-ok :
    (name letters number : List ℕ) {o : PizzaOrder}
    → order_of_groups (name ∷ letters ∷ number ∷ []) ≡ ok o
    → (parse_type name ≡ ok o.type)
      × (parse_size letters ≡ ok o.size)
      × (parse_number number ≡ ok o.quantity)
unfolding order_of_groups
order_of_groups-ok name letters number {o} h =
    let (t, et, h₁) = ok_steps _ (parse_type name) h in
    let (z, ez, h₂) = ok_steps _ (parse_size letters) h₁ in
    let (q, eq, h₃) = ok_steps _ (parse_number number) h₂ in ground arith

groups_in_lower :
    (s : List ℕ) (groups : List (List ℕ)) {o : PizzaOrder}
    → Parts s groups
    → order_of_groups groups ≡ ok o
    → Writes (to_lower s) o
unfolding to_lower
groups_in_lower s groups p h =
    let (named, sized, counted) = order_of_groups-ok p.name p.letters p.number (rw p.found at h) in
    record {
      lead = to_lower p.lead;
      name = to_lower p.name;
      gap = to_lower p.gap;
      letters = to_lower p.letters;
      gap' = to_lower p.gap';
      number = to_lower p.number;
      trail = to_lower p.trail;
      split = ap to_lower p.split ∙ simp map-append;
      lead_space = every_space-lower p.lead p.lead_space;
      gap_space = every_space-lower p.gap p.gap_space;
      gap'_space = every_space-lower p.gap' p.gap'_space;
      trail_space = every_space-lower p.trail p.trail_space;
      named = parse_type-IsTypeName p.name named;
      sized = parse_size-IsSizeName p.letters sized;
      counted = parse_number-IsNumber p.number counted;
    }

pub parse_line-Writes : (s : List ℕ) {o : PizzaOrder} → parse_line s ≡ ok o → Writes (to_lower s) o
unfolding parse_line
parse_line-Writes s h = elim (Option-cases (regex_match pattern_of_line s)) [
  | inl e ↦ absurd (ground arith)
  | inr (groups, e) ↦
      groups_in_lower s groups (parts s groups (regex_match-Matches pattern_of_line s e))
        (rw (e, parse_line) at h)
]
