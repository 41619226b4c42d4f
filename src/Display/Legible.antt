-- ===== src/Display/Legible.antt =====
-- The text of a status says what it shows.
use plazza.Prelude.{
  ℕ, ◌≡◌, refl, ap, inl, inr, true, false, List, [], ◌∷◌, ◌++◌, map, Option, none, some, codes,
  ◌==◌, if◌then◌else◌, All, arith, Bool,
}
use plazza.Text.Reading.{Lacks, read_until, read_number, after_same, first_same, first_or_zero}
use plazza.Kitchen.Cook.{CookStatus, idle}
use plazza.Kitchen.Ingredient.{Ingredient, Stock, k_all_ingredients}
use plazza.Reception.{KitchenStatus}
use plazza.Display.{
  cook_text, cooks_text, qty, stock_text, kitchen_text, kitchens_text, print_status,
}

-- What the user is to see of a cook: its number, and the pizza that it cooks.
abbrev pub seen_pizza : Bool → List ℕ → Option (List ℕ)
seen_pizza true name = none
seen_pizza false name = some name

abbrev pub seen_cook : CookStatus → ℕ × Option (List ℕ)
seen_cook cook = (cook.id, seen_pizza (cook.state == idle) cook.current_pizza)

abbrev pub quantities : Stock → List (List ℕ × Ingredient) → List ℕ
quantities stock entries = map (λ e. qty stock e.1) entries

abbrev pub Seen : Type 0
Seen = ℕ × ℕ × ℕ × List (ℕ × Option (List ℕ)) × List ℕ

abbrev pub seen_kitchen : KitchenStatus → Seen
seen_kitchen s =
    (s.id, s.load, s.capacity, map seen_cook s.cooks, quantities s.stock k_all_ingredients)

-- The name of a pizza is one line.
abbrev pub IsOneLine : CookStatus → Type 0
IsOneLine cook = Lacks b'\n' cook.current_pizza

abbrev pub AreOneLine : KitchenStatus → Type 0
AreOneLine s = All IsOneLine s.cooks

pizza-reads :
    (b b' : Bool) (x y s t : List ℕ)
    → Lacks b'\n' x
    → Lacks b'\n' y
    → (if b then codes "idle\n" ++ s else codes "cooking " ++ (x ++ (codes "\n" ++ s)))
      ≡ (if b' then codes "idle\n" ++ t else codes "cooking " ++ (y ++ (codes "\n" ++ t)))
    → (seen_pizza b x ≡ seen_pizza b' y) × (s ≡ t)
pizza-reads true true x y s t h k e = (refl, after_same (codes "idle\n") s t e)
pizza-reads true false x y s t h k e = absurd (let f = first_same e in omega arith)
pizza-reads false true x y s t h k e = absurd (let f = first_same e in omega arith)
pizza-reads false false x y s t h k e =
    let (same, rest) = read_until b'\n' x y s t h k (after_same (codes "cooking ") _ _ e) in
    (ap some same, rest)

cook-reads :
    (x y : CookStatus) (s t : List ℕ)
    → IsOneLine x
    → IsOneLine y
    → cook_text x s ≡ cook_text y t
    → (seen_cook x ≡ seen_cook y) × (s ≡ t)
unfolding cook_text
cook-reads x y s t h k e =
    let (id, pizza) =
      read_number b':' (inr (omega arith)) x.id y.id _ _ (after_same (codes "    Cook ") _ _ e) in
    let (seen, rest) =
      pizza-reads (x.state == idle) (y.state == idle) x.current_pizza y.current_pizza s t h k
        (after_same (codes " ") _ _ pizza) in
    (cc, rest)

-- The list of the cooks ends at the word that follows it.
cooks-reads :
    (xs ys : List CookStatus) (s t : List ℕ)
    → All IsOneLine xs
    → All IsOneLine ys
    → cooks_text xs (codes "  Stock:\n" ++ s) ≡ cooks_text ys (codes "  Stock:\n" ++ t)
    → (map seen_cook xs ≡ map seen_cook ys) × (s ≡ t)
unfolding cooks_text cook_text
cooks-reads [] [] s t h k e = (refl, after_same (codes "  Stock:\n") s t e)
cooks-reads [] (y ∷ ys) s t h k e =
    absurd (let f = first_same (after_same (codes "  ") _ _ e) in omega arith)
cooks-reads (x ∷ xs) [] s t h k e =
    absurd (let f = first_same (after_same (codes "  ") _ _ e) in omega arith)
cooks-reads (x ∷ xs) (y ∷ ys) s t h k e =
    let (same, after) = cook-reads x y _ _ h.0 k.0 e in
    let (rest, end) = cooks-reads xs ys s t h.1 k.1 after in (cc, end)

stock-reads :
    (entries : List (List ℕ × Ingredient)) (x y : Stock) (s t : List ℕ)
    → stock_text x entries s ≡ stock_text y entries t
    → (quantities x entries ≡ quantities y entries) × (s ≡ t)
unfolding stock_text
stock-reads [] x y s t e = (refl, e)
stock-reads ((name, i) ∷ entries) x y s t e =
    let number =
      after_same (codes ": ") _ _ (after_same name _ _ (after_same (codes "    ") _ _ e)) in
    let (same, after) = read_number b'\n' (inl (omega arith)) (qty x i) (qty y i) _ _ number in
    let (rest, end) = stock-reads entries x y s t after in (cc, end)

kitchen-reads :
    (x y : KitchenStatus) (s t : List ℕ)
    → AreOneLine x
    → AreOneLine y
    → kitchen_text x s ≡ kitchen_text y t
    → (seen_kitchen x ≡ seen_kitchen y) × (s ≡ t)
unfolding kitchen_text
kitchen-reads x y s t h k e =
    let (id, e₁) =
      read_number b' ' (inl (omega arith)) x.id y.id _ _
        (after_same (codes "=== Kitchen #") _ _ e) in
    let (load, e₂) =
      read_number b'/' (inl (omega arith)) x.load y.load _ _ (after_same (codes "[") _ _ e₁) in
    let (capacity, e₃) = read_number b']' (inr (omega arith)) x.capacity y.capacity _ _ e₂ in
    let (cooks, e₄) =
      cooks-reads x.cooks y.cooks _ _ h k (after_same (codes " ===\n  Cooks:\n") _ _ e₃) in
    let (stock, rest) = stock-reads k_all_ingredients x.stock y.stock s t e₄ in (cc, rest)

kitchens-reads :
    (xs ys : List KitchenStatus)
    → All AreOneLine xs
    → All AreOneLine ys
    → kitchens_text xs ≡ kitchens_text ys
    → map seen_kitchen xs ≡ map seen_kitchen ys
unfolding kitchens_text kitchen_text
kitchens-reads [] [] h k e = refl
kitchens-reads [] (y ∷ ys) h k e = absurd (let f = ap first_or_zero e in omega arith)
kitchens-reads (x ∷ xs) [] h k e = absurd (let f = ap first_or_zero e in omega arith)
kitchens-reads (x ∷ xs) (y ∷ ys) h k e =
    let (same, after) = kitchen-reads x y _ _ h.0 k.0 e in
    let rest = kitchens-reads xs ys h.1 k.1 after in cc

-- Two lists of statuses that print the same show the same: the same kitchens in the same order,
-- each with the same number, load, capacity, cooks, pizzas that cook and quantities, where the
-- names of the pizzas have no line break.
pub print_status-tells :
    (xs ys : List KitchenStatus)
    → All AreOneLine xs
    → All AreOneLine ys
    → print_status xs ≡ print_status ys
    → map seen_kitchen xs ≡ map seen_kitchen ys
unfolding print_status kitchens_text kitchen_text
print_status-tells [] [] h k e = refl
print_status-tells [] (y ∷ ys) h k e = absurd (let f = ap first_or_zero e in omega arith)
print_status-tells (x ∷ xs) [] h k e = absurd (let f = ap first_or_zero e in omega arith)
print_status-tells (x ∷ xs) (y ∷ ys) h k e = kitchens-reads (x ∷ xs) (y ∷ ys) h k e
