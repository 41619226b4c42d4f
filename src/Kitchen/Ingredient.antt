-- ===== src/Kitchen/Ingredient.antt =====
-- The enumeration of kitchen/IngredientStock/IngredientStock.hpp and the table of its names, and
-- std::map from ingredients to quantities.
use plazza.Prelude.{ℕ, List, [], ◌∷◌, Option, none, some, codes, ◌==◌, if◌then◌else◌}

abbrev pub Ingredient : Type 0
Ingredient = ℕ

abbrev pub k_all_ingredients : List (List ℕ × Ingredient)
k_all_ingredients =
    (codes "dough", 0)
    ∷ (codes "tomato", 1)
    ∷ (codes "gruyere", 2)
    ∷ (codes "ham", 3)
    ∷ (codes "mushrooms", 4)
    ∷ (codes "steak", 5)
    ∷ (codes "eggplant", 6)
    ∷ (codes "goat cheese", 7)
    ∷ (codes "chief love", 8)
    ∷ []

abbrev pub Stock : Type 0
Stock = List (Ingredient × ℕ)

-- `stock.find(i)`, with its value.
unfoldable pub find : Ingredient → Stock → Option ℕ
find i [] = none
find i ((j, n) ∷ stock) = if j == i then some n else find i stock

-- `stock[i] = n`.
unfoldable pub assign : Ingredient → ℕ → Stock → Stock
assign i n [] = (i, n) ∷ []
assign i n ((j, m) ∷ stock) = if j == i then (j, n) ∷ stock else (j, m) ∷ assign i n stock
