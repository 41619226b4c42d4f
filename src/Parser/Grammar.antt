-- ===== src/Parser/Grammar.antt =====
-- The grammar of one order, TYPE SIZE NUMBER, with no reference to the pattern or its matcher.
use plazza.Prelude.{ℕ, ◌≡◌, ◌<◌, ◌⊎◌, ◌^◌, true, List, ◌∷◌, ◌++◌, codes}
use plazza.Regex.Meaning.{every}
use plazza.Pizza.{PizzaType, PizzaSize, PizzaOrder}
use plazza.Parser.{is_space, is_digit, is_positive_digit, decimal}

-- The words for a type and for a size, in lower case.
abbrev pub IsTypeName : List ℕ → PizzaType → Type 0
IsTypeName name type =
    ((name ≡ codes "regina") × (type ≡ 1))
    ⊎ ((name ≡ codes "margarita") × (type ≡ 2))
    ⊎ ((name ≡ codes "americana") × (type ≡ 4))
    ⊎ ((name ≡ codes "fantasia") × (type ≡ 8))

abbrev pub IsSizeName : List ℕ → PizzaSize → Type 0
IsSizeName name size =
    ((name ≡ codes "s") × (size ≡ 1))
    ⊎ ((name ≡ codes "m") × (size ≡ 2))
    ⊎ ((name ≡ codes "l") × (size ≡ 4))
    ⊎ ((name ≡ codes "xl") × (size ≡ 8))
    ⊎ ((name ≡ codes "xxl") × (size ≡ 16))

-- `x[1-9][0-9]*` for a number that a 64-bit unsigned long holds.
pub record IsNumber (number : List ℕ) (quantity : ℕ) : Type 0 where
  pub first : ℕ
  pub more : List ℕ
  pub split : number ≡ b'x' ∷ first ∷ more
  pub positive : is_positive_digit first ≡ true
  pub digits : every is_digit more ≡ true
  pub value : quantity ≡ decimal 0 (first ∷ more)
  pub fits : quantity < 2 ^ 64

-- A text in lower case that writes an order: the three words, with any white space between and
-- around them.
pub record Writes (text : List ℕ) (order : PizzaOrder) : Type 0 where
  pub lead : List ℕ
  pub name : List ℕ
  pub gap : List ℕ
  pub letters : List ℕ
  pub gap' : List ℕ
  pub number : List ℕ
  pub trail : List ℕ
  pub split : text ≡ lead ++ (name ++ (gap ++ (letters ++ (gap' ++ (number ++ trail)))))
  pub lead_space : every is_space lead ≡ true
  pub gap_space : every is_space gap ≡ true
  pub gap'_space : every is_space gap' ≡ true
  pub trail_space : every is_space trail ≡ true
  pub named : IsTypeName name order.type
  pub sized : IsSizeName letters order.size
  pub counted : IsNumber number order.quantity
