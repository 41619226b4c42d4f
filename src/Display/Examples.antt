-- ===== src/Display/Examples.antt =====
-- What is printed for concrete statuses.
use plazza.Prelude.{ℕ, ◌≡◌, ◌≢◌, refl, [], ◌∷◌, ◌++◌, map, codes, arith, ◌<◌}
use plazza.Text.Reading.{Lacks}
use plazza.Kitchen.Cook.{CookStatus, idle, cooking}
use plazza.Reception.{KitchenStatus}
use plazza.Display.{print_status, notify_order_ready}
use plazza.Display.Legible.{seen_kitchen, print_status-tells}

abbrev resting : CookStatus
resting = record { id = 0; state = idle; current_pizza = []; type = 2; size = 2 }

-- It still carries the name of the pizza it had.
abbrev rested : CookStatus
rested = record { id = 0; state = idle; current_pizza = codes "regina"; type = 2; size = 2 }

abbrev baking : CookStatus
baking = record { id = 1; state = cooking; current_pizza = codes "regina"; type = 2; size = 2 }

abbrev shop : CookStatus → KitchenStatus
shop cook = record {
  id = 12;
  load = 1;
  capacity = 4;
  cooks = cook ∷ baking ∷ [];
  stock = (0, 10) ∷ (3, 5) ∷ [];
}

print_status-none : print_status [] ≡ codes "No active kitchen.\n"
unfolding print_status
print_status-none = refl

print_status-shop :
    print_status (shop resting ∷ [])
    ≡ codes "=== Kitchen #12 [1/4] ===\n  Cooks:\n    Cook 0: idle\n    Cook 1: cooking regina\n"
      ++ codes
          "  Stock:\n    dough: 10\n    tomato: 0\n    gruyere: 0\n    ham: 5\n    mushrooms: 0\n"
      ++ codes "    steak: 0\n    eggplant: 0\n    goat cheese: 0\n    chief love: 0\n"
unfolding print_status
print_status-shop = refl

notify_order_ready-3 : notify_order_ready 3 ≡ codes "\nOrder #3 completely ready!\n> "
unfolding notify_order_ready
notify_order_ready-3 = refl

regina-Lacks : Lacks b'\n' (codes "regina")
regina-Lacks =
    let o : (c : ℕ) → b'\n' < c → c ≢ b'\n' = λ c l e. omega arith in
    (
      o _ (omega arith),
      (
        o _ (omega arith),
        (o _ (omega arith), (o _ (omega arith), (o _ (omega arith), (o _ (omega arith), tt)))),
      ),
    )

print_status-tells_example :
    map seen_kitchen (shop resting ∷ []) ≡ map seen_kitchen (shop rested ∷ [])
unfolding print_status
print_status-tells_example =
    print_status-tells (shop resting ∷ []) (shop rested ∷ []) ((tt, (regina-Lacks, tt)), tt)
      ((regina-Lacks, (regina-Lacks, tt)), tt) refl
