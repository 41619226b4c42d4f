-- ===== src/Kitchen/IngredientStock.antt =====
-- kitchen/IngredientStock/IngredientStock.cpp. Every method runs under the mutex, so a method is
-- one step on the state; `waitAndConsumeIngredients` is one such step each time its thread has the
-- mutex, and leaves the state alone where the thread has to wait on the condition variable.
use plazza.Prelude.{
  ℕ, ◌+◌, ◌-◌, ◌^◌, ◌%◌, Bool, true, false, not, ◌&&◌, List, [], ◌∷◌, Option, none, some, ltb,
  if◌then◌else◌,
}
use plazza.Kitchen.Ingredient.{Ingredient, Stock, find, assign, k_all_ingredients}

pub record IngredientStock : Type 0 where
  pub stock : Stock
  pub running : Bool

-- The loop of the constructor.
unfoldable pub fill : List (List ℕ × Ingredient) → ℕ → Stock → Stock
fill [] initial stock = stock
fill ((name, i) ∷ entries) initial stock = fill entries initial (assign i initial stock)

unfoldable pub new_stock : ℕ → IngredientStock
unfolding fill assign
new_stock initial = record { stock = fill k_all_ingredients initial []; running = true }

-- The default of the constructor's second argument.
abbrev pub initial_stock : ℕ
initial_stock = 5

abbrev pub is_positive : Option ℕ → Bool
is_positive none = false
is_positive (some n) = ltb 0 n

unfoldable pub all_available : List Ingredient → Stock → Bool
unfolding find
all_available [] stock = true
all_available (i ∷ needed) stock = is_positive (find i stock) && all_available needed stock

-- `--stock_[i]` and `++count`, on std::size_t. `operator[]` makes a missing entry 0.
abbrev pub decrement : ℕ → ℕ
decrement n = (n + (2 ^ 64 - 1)) % 2 ^ 64

abbrev pub value_or_zero : Option ℕ → ℕ
value_or_zero none = 0
value_or_zero (some n) = n

unfoldable pub consume_one : Ingredient → Stock → Stock
unfolding find assign
consume_one i stock = assign i (decrement (value_or_zero (find i stock))) stock

unfoldable pub consume : List Ingredient → Stock → Stock
unfolding consume_one
consume [] stock = stock
consume (i ∷ needed) stock = consume needed (consume_one i stock)

-- What one turn of `waitAndConsumeIngredients` comes to.
pub data Turn : Type 0 where
  waits : Turn
  refused : Turn
  consumed : IngredientStock → Turn

unfoldable pub wait_and_consume : List Ingredient → IngredientStock → Turn
unfolding all_available consume
wait_and_consume needed s =
    if s.running && not (all_available needed s.stock)
    then waits
    else if not s.running
    then refused
    else consumed (record s { stock = consume needed s.stock })

-- The body of `regenLoop` once it has the mutex; `none` is its return.
unfoldable pub increment_all : Stock → Stock
increment_all [] = []
increment_all ((i, n) ∷ stock) = (i, (n + 1) % 2 ^ 64) ∷ increment_all stock

unfoldable pub regen : IngredientStock → Option IngredientStock
unfolding increment_all
regen s = if not s.running then none else some (record s { stock = increment_all s.stock })

-- The destructor, up to the join of its thread.
unfoldable pub close : IngredientStock → IngredientStock
close s = record s { running = false }
