-- ===== src/Kitchen/IngredientLaws.antt =====
-- Laws of the map from ingredients to quantities.
use plazza.Prelude.{ℕ, ◌≡◌, refl, [], ◌∷◌, some, ◌==◌, if◌then◌else◌, arith}
use plazza.Kitchen.Ingredient.{Stock, find, assign}

pub find-assign :
    (i j n : ℕ) (stock : Stock)
    → find i (assign j n stock) ≡ (if j == i then some n else find i stock)
unfolding find assign
find-assign i j n [] = refl
find-assign i j n ((k, m) ∷ stock) = ground (arith, find-assign i j n stock)
