-- ===== src/Pizza/Factory.antt =====
-- pizza/factory/PizzaFactory.cpp: a registry of prototypes that lives as long as the program, and
-- is filled by the first call of `create`.
use plazza.Prelude.{
  ℕ, Bool, true, false, List, [], ◌∷◌, ◌++◌, Option, none, some, codes, ◌==◌, if◌then◌else◌,
}
use plazza.Errors.{Result, ok, thrown}
use plazza.Pizza.{PizzaType, PizzaSize}
use plazza.Pizza
use plazza.Pizza.Recipe.{PizzaRecipe, with_size}

-- The two static variables.
pub record Registry : Type 0 where
  pub instance_ : List (PizzaType × PizzaRecipe)
  pub already_registered : Bool

abbrev pub fresh_registry : Registry
fresh_registry = record { instance_ = []; already_registered = false }

-- `std::find_if` on the first component.
unfoldable pub find : PizzaType → List (PizzaType × PizzaRecipe) → Option PizzaRecipe
find type [] = none
find type ((t, recipe) ∷ entries) = if t == type then some recipe else find type entries

-- A type that is there already keeps its prototype.
unfoldable pub register_pizza : PizzaType → PizzaRecipe → Registry → Registry
unfolding find
register_pizza type prototype r = elim (find type r.instance_) [
  | none ↦ record r { instance_ = r.instance_ ++ ((type, prototype) ∷ []) }
  | some _ ↦ r
]

abbrev pub margarita_recipe : PizzaRecipe
margarita_recipe = record {
  type = Pizza.margarita;
  size = Pizza.m;
  ingredients = codes "dough" ∷ codes "tomato" ∷ codes "gruyere" ∷ [];
  base_cook_seconds = 1;
}

abbrev pub regina_recipe : PizzaRecipe
regina_recipe = record {
  type = Pizza.regina;
  size = Pizza.m;
  ingredients =
      codes "dough" ∷ codes "tomato" ∷ codes "gruyere" ∷ codes "ham" ∷ codes "mushrooms" ∷ [];
  base_cook_seconds = 2;
}

abbrev pub americana_recipe : PizzaRecipe
americana_recipe = record {
  type = Pizza.americana;
  size = Pizza.m;
  ingredients = codes "dough" ∷ codes "tomato" ∷ codes "gruyere" ∷ codes "steak" ∷ [];
  base_cook_seconds = 2;
}

abbrev pub fantasia_recipe : PizzaRecipe
fantasia_recipe = record {
  type = Pizza.fantasia;
  size = Pizza.m;
  ingredients =
      codes "dough"
      ∷ codes "tomato"
      ∷ codes "eggplant"
      ∷ codes "goat cheese"
      ∷ codes "chief love"
      ∷ [];
  base_cook_seconds = 4;
}

unfoldable pub register_builtin_pizzas : Registry → Registry
unfolding register_pizza
register_builtin_pizzas r =
    if r.already_registered
    then r
    else let r₁ =
        register_pizza Pizza.margarita margarita_recipe (record r { already_registered = true }) in
      let r₂ = register_pizza Pizza.regina regina_recipe r₁ in
      let r₃ = register_pizza Pizza.americana americana_recipe r₂ in
      register_pizza Pizza.fantasia fantasia_recipe r₃

abbrev pub unknown_pizza_type : List ℕ
unknown_pizza_type = codes "Unknown pizza type"

-- The end of `create`: a copy of the prototype in the size wanted.
unfoldable pub copy_of : Option PizzaRecipe → PizzaSize → Result PizzaRecipe
unfolding with_size
copy_of none size = thrown unknown_pizza_type
copy_of (some recipe) size = ok (with_size recipe size)

unfoldable pub create : PizzaType → PizzaSize → Registry → Registry × Result PizzaRecipe
unfolding register_builtin_pizzas find copy_of
create type size r =
    let r' = register_builtin_pizzas r in (r', copy_of (find type r'.instance_) size)
