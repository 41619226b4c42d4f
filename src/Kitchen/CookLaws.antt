-- ===== src/Kitchen/CookLaws.antt =====
-- The recipes of the factory can be cooked: their ingredients are known, and none is named twice.
use plazza.Prelude.{
  ℕ, ◌≤◌, ◌≡◌, refl, List, [], ◌∷◌, Option, some, none, arith, subst, if_both, ◌==◌,
}
use plazza.Errors.{ok}
use plazza.Pizza
use plazza.Pizza.Recipe.{PizzaRecipe}
use plazza.Pizza.Factory.{margarita_recipe, regina_recipe, americana_recipe, fantasia_recipe}
use plazza.Pizza.FactoryLaws.{built_in}
use plazza.Kitchen.Ingredient.{Ingredient}
use plazza.Kitchen.Cook.{to_ingredients}
use plazza.Kitchen.StockLaws.{count}

abbrev pub IsCookable : PizzaRecipe → Type 0
IsCookable recipe =
    (needed : List Ingredient) × (to_ingredients recipe.ingredients ≡ ok needed)
    × ((i : Ingredient) → count i needed ≤ 1)

margarita-IsCookable : IsCookable margarita_recipe
unfolding to_ingredients
margarita-IsCookable = (0 ∷ 1 ∷ 2 ∷ [], refl, λ i. ground arith)

regina-IsCookable : IsCookable regina_recipe
unfolding to_ingredients
regina-IsCookable = (0 ∷ 1 ∷ 2 ∷ 3 ∷ 4 ∷ [], refl, λ i. ground arith)

americana-IsCookable : IsCookable americana_recipe
unfolding to_ingredients
americana-IsCookable = (0 ∷ 1 ∷ 2 ∷ 5 ∷ [], refl, λ i. ground arith)

fantasia-IsCookable : IsCookable fantasia_recipe
unfolding to_ingredients
fantasia-IsCookable = (0 ∷ 1 ∷ 6 ∷ 7 ∷ 8 ∷ [], refl, λ i. ground arith)

AllCookable : Option PizzaRecipe → Type 0
AllCookable none = Unit {0}
AllCookable (some recipe) = IsCookable recipe

built_in-AllCookable : (type : ℕ) → AllCookable (built_in type)
unfolding AllCookable
built_in-AllCookable type = if_both AllCookable (Pizza.margarita == type) _ _ margarita-IsCookable (
    if_both AllCookable (Pizza.regina == type) _ _ regina-IsCookable (
      if_both AllCookable (Pizza.americana == type) _ _ americana-IsCookable
        (if_both AllCookable (Pizza.fantasia == type) _ _ fantasia-IsCookable tt)))

-- Every recipe in the factory's table has only ingredients that the kitchen knows, and names none
-- of them twice.
pub built_in-IsCookable :
    (type : ℕ) (recipe : PizzaRecipe) → built_in type ≡ some recipe → IsCookable recipe
unfolding AllCookable
built_in-IsCookable type recipe h = subst AllCookable h (built_in-AllCookable type)
