-- ===== src/Pizza/Recipe.antt =====
-- pizza/Pizza.hpp and pizza/Pizza.cpp. The base times of the program are whole seconds, which a
-- double holds exactly; the multiplier is any double.
use plazza.Prelude.{ℕ, List, [], codes, ◌==◌, if◌then◌else◌}
use plazza.Pizza.{PizzaType, PizzaSize}
use plazza.Pizza

pub record PizzaRecipe : Type 0 where
  pub type : PizzaType
  pub size : PizzaSize
  pub ingredients : List (List ℕ)
  pub base_cook_seconds : ℕ

-- The member initialisers.
abbrev pub default_recipe : PizzaRecipe
default_recipe = record {
  type = Pizza.margarita;
  size = Pizza.m;
  ingredients = [];
  base_cook_seconds = 0;
}

unfoldable pub with_size : PizzaRecipe → PizzaSize → PizzaRecipe
with_size recipe new_size = record recipe { size = new_size }

unfoldable pub get_name : PizzaType → List ℕ
get_name type =
    if type == Pizza.margarita
    then codes "Margarita"
    else if type == Pizza.regina
    then codes "Regina"
    else if type == Pizza.americana
    then codes "Americana"
    else if type == Pizza.fantasia
    then codes "Fantasia"
    else codes "Unknown"

-- What the program asks of double: the value of a whole number, products, and the conversion to
-- int that truncates.
pub record Floats : Type 1 where
  pub Double : Type 0
  pub of_ℕ : ℕ → Double
  pub times : Double → Double → Double
  pub to_int : Double → ℕ

module _ (floats : Floats) where
  open floats use {Double, of_ℕ, times, to_int}

  pub cooking_time : PizzaRecipe → Double → Double
  cooking_time recipe multiplier = times (of_ℕ recipe.base_cook_seconds) multiplier

  -- The milliseconds that `Cook::cookPizza` sleeps.
  pub cooking_ms : PizzaRecipe → Double → ℕ
  unfolding cooking_time
  cooking_ms recipe multiplier = to_int (times (cooking_time recipe multiplier) (of_ℕ 1000))
