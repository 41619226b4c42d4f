-- ===== src/Pizza/FactoryLaws.antt =====
-- What `create` returns, whatever has been registered before.
use plazza.Prelude.{
  ℕ, or_else, inl, inr, ◌⊎◌, ◌≡◌, ◌∙◌, refl, true, false, codes, List, [], ◌∷◌, ◌++◌, Option, none,
  some, ◌==◌, if◌then◌else◌, arith, Bool-cases,
}
use plazza.Pizza.{PizzaType, PizzaSize}
use plazza.Pizza
use plazza.Errors.{Result, ok, thrown}
use plazza.Pizza.Recipe.{PizzaRecipe, with_size}
use plazza.Pizza.Factory.{
  Registry, fresh_registry, find, register_pizza, register_builtin_pizzas, copy_of, create,
  margarita_recipe, regina_recipe, americana_recipe, fantasia_recipe,
}

find-append :
    (type : ℕ) (entries more : List (PizzaType × PizzaRecipe))
    → find type (entries ++ more) ≡ or_else (find type entries) (find type more)
unfolding find
find-append type [] more = refl
find-append type ((t, r) ∷ entries) more = ground (arith, find-append type entries more)

-- The first prototype registered for a type stays, and the other types are left alone.
find-register_pizza :
    (wanted type : PizzaType) (prototype : PizzaRecipe) (r : Registry)
    → find wanted (register_pizza type prototype r).instance_
      ≡ or_else (find wanted r.instance_) (if type == wanted then some prototype else none)
unfolding register_pizza find
find-register_pizza wanted type prototype r =
    ground (arith, find-append wanted r.instance_ ((type, prototype) ∷ []))

-- The table of the recipes that the program knows.
abbrev pub built_in : PizzaType → Option PizzaRecipe
built_in type =
    if Pizza.margarita == type
    then some margarita_recipe
    else if Pizza.regina == type
    then some regina_recipe
    else if Pizza.americana == type
    then some americana_recipe
    else if Pizza.fantasia == type
    then some fantasia_recipe
    else none

pub built_in-type :
    (type : ℕ) (recipe : PizzaRecipe) → built_in type ≡ some recipe → recipe.type ≡ type
built_in-type type recipe h = ground arith

register_pizza-flag :
    (type : PizzaType) (prototype : PizzaRecipe) (r : Registry)
    → (register_pizza type prototype r).already_registered ≡ r.already_registered
unfolding register_pizza
register_pizza-flag type prototype r = ground arith

find-register_builtin_pizzas :
    (type : PizzaType) (r : Registry)
    → r.already_registered ≡ false
    → find type (register_builtin_pizzas r).instance_
      ≡ or_else (find type r.instance_) (built_in type)
unfolding register_builtin_pizzas
find-register_builtin_pizzas type r h =
    rw (h, find-register_pizza, find-register_pizza, find-register_pizza, find-register_pizza)
      (ground arith)

register_builtin_pizzas-flag :
    (r : Registry) → (register_builtin_pizzas r).already_registered ≡ true
unfolding register_builtin_pizzas
register_builtin_pizzas-flag r = elim (Bool-cases r.already_registered) [
  | inl e ↦ rw (e, register_builtin_pizzas)
  | inr e ↦
      rw (e, register_pizza-flag, register_pizza-flag, register_pizza-flag, register_pizza-flag)
]

-- What `create` gives on a registry where nothing was registered by hand, at its first call and at
-- every later one.
pub history : List (PizzaType × PizzaSize) → Registry → Registry
history [] r = r
history ((type, size) ∷ calls) r = history calls (create type size r).0

abbrev pub IsBuiltIn : Registry → Type 0
IsBuiltIn r =
    (r ≡ fresh_registry)
    ⊎ ((r.already_registered ≡ true) × ((type : PizzaType) → find type r.instance_ ≡ built_in type))

register_builtin_pizzas-table :
    (r : Registry)
    → IsBuiltIn r
    → (type : PizzaType) → find type (register_builtin_pizzas r).instance_ ≡ built_in type
unfolding register_builtin_pizzas find
register_builtin_pizzas-table r (inl e) type =
    rw e (find-register_builtin_pizzas type fresh_registry refl)
register_builtin_pizzas-table r (inr (flag, table)) type = rw flag (table type)

pub create-IsBuiltIn :
    (type : PizzaType) (size : PizzaSize) (r : Registry)
    → IsBuiltIn r
    → IsBuiltIn (create type size r).0
unfolding create
create-IsBuiltIn type size r h =
    inr (register_builtin_pizzas-flag r, register_builtin_pizzas-table r h)

history-IsBuiltIn :
    (calls : List (PizzaType × PizzaSize)) (r : Registry)
    → IsBuiltIn r
    → IsBuiltIn (history calls r)
unfolding history
history-IsBuiltIn [] r h = h
history-IsBuiltIn ((type, size) ∷ calls) r h =
    history-IsBuiltIn calls _ (create-IsBuiltIn type size r h)

pub create_result :
    (type : PizzaType) (size : PizzaSize) (r : Registry)
    → IsBuiltIn r
    → (create type size r).1 ≡ copy_of (built_in type) size
unfolding create
create_result type size r h = rw (register_builtin_pizzas-table r h type)

-- What the menu says of a type, in a size.
abbrev pub dish : PizzaType → PizzaSize → List (List ℕ) → ℕ → Result PizzaRecipe
dish type size ingredients seconds =
    ok (record { type = type; size = size; ingredients = ingredients; base_cook_seconds = seconds })

abbrev pub menu : PizzaType → PizzaSize → Result PizzaRecipe
menu type size =
    if type == 1
    then dish 1 size
        (codes "dough" ∷ codes "tomato" ∷ codes "gruyere" ∷ codes "ham" ∷ codes "mushrooms" ∷ []) 2
    else if type == 2
    then dish 2 size (codes "dough" ∷ codes "tomato" ∷ codes "gruyere" ∷ []) 1
    else if type == 4
    then dish 4 size (codes "dough" ∷ codes "tomato" ∷ codes "gruyere" ∷ codes "steak" ∷ []) 2
    else if type == 8
    then dish 8 size
        (codes "dough"
          ∷ codes "tomato"
          ∷ codes "eggplant"
          ∷ codes "goat cheese"
          ∷ codes "chief love"
          ∷ [])
        4
    else thrown (codes "Unknown pizza type")

copy_of-menu : (type : ℕ) (size : PizzaSize) → copy_of (built_in type) size ≡ menu type size
unfolding copy_of with_size
copy_of-menu type size = ground arith

-- After any calls of `create`, from a program that registers no pizza itself, `create` gives the
-- recipe of the menu: a regina, margarita, americana or fantasia in exactly the size asked for, with
-- the ingredients and the seconds written there, and for any other type the exception with the
-- text "Unknown pizza type".
pub create-history :
    (calls : List (PizzaType × PizzaSize)) (type : PizzaType) (size : PizzaSize)
    → (create type size (history calls fresh_registry)).1 ≡ menu type size
create-history calls type size =
    create_result type size _ (history-IsBuiltIn calls fresh_registry (inl refl))
    ∙ copy_of-menu type size
