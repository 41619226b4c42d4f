-- ===== src/Kitchen/Cook.antt =====
-- kitchen/cook/Cook.cpp: the names of ingredients looked up, and the state of a cook. The parts of
-- `cookPizza` between two accesses to shared state are the steps of ThreadPool.antt.
use plazza.Prelude.{ℕ, List, [], ◌∷◌, ◌++◌, codes, str_eq, if◌then◌else◌}
use plazza.Errors.{Result, ok, thrown, ◌>>=◌}
use plazza.Pizza.{PizzaType, PizzaSize}
use plazza.Pizza.Recipe.{PizzaRecipe, get_name}
use plazza.Ipc.{Packet, zero_packet, pack}
use plazza.Ipc.MessageType
use plazza.Kitchen.Ingredient.{Ingredient, k_all_ingredients}

-- The map is built from the table, whose names differ, so a lookup in the map is one in the table.
unfoldable pub find_name : List ℕ → List (List ℕ × Ingredient) → Result Ingredient
find_name name [] = thrown (codes "Unknown ingredient: " ++ name)
find_name name ((n, i) ∷ entries) = if str_eq n name then ok i else find_name name entries

unfoldable pub to_ingredient : List ℕ → Result Ingredient
unfolding find_name str_eq
to_ingredient name = find_name name k_all_ingredients

unfoldable pub to_ingredients : List (List ℕ) → Result (List Ingredient)
unfolding to_ingredient
to_ingredients [] = ok []
to_ingredients (name ∷ names) = do
  ingredient ← to_ingredient name
  ingredients ← to_ingredients names
  ok (ingredient ∷ ingredients)

abbrev pub CookState : Type 0
CookState = ℕ

abbrev pub idle : CookState
idle = 0

abbrev pub cooking : CookState
cooking = 1

-- The fields that the methods use; the multiplier only scales the time slept.
pub record Cook : Type 0 where
  pub id : ℕ
  pub state : CookState
  pub current_pizza_name : List ℕ
  pub current_pizza_type : PizzaType
  pub current_pizza_size : PizzaSize

abbrev pub new_cook : ℕ → Cook
new_cook id = record {
  id = id;
  state = idle;
  current_pizza_name = [];
  current_pizza_type = 2;
  current_pizza_size = 2;
}

-- The first block of `cookPizza`.
unfoldable pub begin_cooking : PizzaRecipe → Cook → Cook
begin_cooking pizza cook = record {
  id = cook.id;
  state = cooking;
  current_pizza_name = get_name pizza.type;
  current_pizza_type = pizza.type;
  current_pizza_size = pizza.size;
}

-- The end of `cookPizza`, which the early return and the handler repeat.
unfoldable pub end_cooking : Cook → Cook
end_cooking cook = record cook { state = idle; current_pizza_name = [] }

abbrev pub done_packet : PizzaRecipe → Packet
done_packet pizza = record zero_packet {
  type = MessageType.done;
  pizza = pack (record { type = pizza.type; size = pizza.size });
}

pub record CookStatus : Type 0 where
  pub id : ℕ
  pub state : CookState
  pub current_pizza : List ℕ
  pub type : PizzaType
  pub size : PizzaSize

unfoldable pub status : Cook → CookStatus
status cook = record {
  id = cook.id;
  state = cook.state;
  current_pizza = cook.current_pizza_name;
  type = cook.current_pizza_type;
  size = cook.current_pizza_size;
}
