-- ===== src/Display.antt =====
-- display/Display.cpp: what is printed for the user. A function puts its text before what is
-- printed after it, and takes the fields that it prints.
pub mod Legible
pub mod Examples
use plazza.Prelude.{ℕ, List, [], ◌∷◌, ◌++◌, Option, none, some, codes, ◌==◌, if◌then◌else◌}
use plazza.Text.{to_string}
use plazza.Kitchen.Cook.{CookStatus, idle}
use plazza.Kitchen.Ingredient.{Ingredient, Stock, find, k_all_ingredients}
use plazza.Reception.{KitchenStatus}

unfoldable pub cook_text : CookStatus → List ℕ → List ℕ
unfolding to_string
cook_text cook rest =
    codes "    Cook "
    ++ (to_string cook.id
        ++ (codes ": "
            ++ (if cook.state == idle
                then codes "idle\n" ++ rest
                else codes "cooking " ++ (cook.current_pizza ++ (codes "\n" ++ rest)))))

-- The loop over the cooks.
unfoldable pub cooks_text : List CookStatus → List ℕ → List ℕ
unfolding cook_text
cooks_text [] rest = rest
cooks_text (cook ∷ cooks) rest = cook_text cook (cooks_text cooks rest)

-- A key that is missing counts as 0.
abbrev pub qty_of : Option ℕ → ℕ
qty_of none = 0
qty_of (some n) = n

unfoldable pub qty : Stock → Ingredient → ℕ
unfolding find
qty stock i = qty_of (find i stock)

-- The loop over the ingredients.
unfoldable pub stock_text : Stock → List (List ℕ × Ingredient) → List ℕ → List ℕ
unfolding to_string qty
stock_text stock [] rest = rest
stock_text stock ((name, i) ∷ entries) rest =
    codes "    "
    ++ (name
        ++ (codes ": "
            ++ (to_string (qty stock i) ++ (codes "\n" ++ stock_text stock entries rest))))

unfoldable pub kitchen_text : KitchenStatus → List ℕ → List ℕ
unfolding to_string cooks_text stock_text
kitchen_text status rest =
    codes "=== Kitchen #"
    ++ (to_string status.id
        ++ (codes " ["
            ++ (to_string status.load
                ++ (codes "/"
                    ++ (to_string status.capacity
                        ++ (codes "] ===\n  Cooks:\n"
                            ++ cooks_text status.cooks (
                                codes "  Stock:\n"
                                ++ stock_text status.stock k_all_ingredients rest)))))))

unfoldable pub kitchens_text : List KitchenStatus → List ℕ
unfolding kitchen_text
kitchens_text [] = []
kitchens_text (status ∷ statuses) = kitchen_text status (kitchens_text statuses)

unfoldable pub print_status : List KitchenStatus → List ℕ
unfolding kitchens_text
print_status [] = codes "No active kitchen.\n"
print_status (status ∷ statuses) = kitchens_text (status ∷ statuses)

unfoldable pub notify_order_ready : ℕ → List ℕ
unfolding to_string
notify_order_ready order_id =
    codes "\nOrder #" ++ (to_string order_id ++ codes " completely ready!\n> ")
