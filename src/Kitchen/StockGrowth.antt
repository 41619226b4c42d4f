-- ===== src/Kitchen/StockGrowth.antt =====
-- A stock that one round of the regeneration brings back after a recipe has been taken from it.
use plazza.Prelude.{
  ℕ, suc, ◌+◌, ◌^◌, ◌%◌, ◌≤◌, ◌<◌, ◌≡◌, ap, inl, inr, All, true, List, [], ◌∷◌, some, ◌==◌, arith,
  Bool-cases,
}
use plazza.Kitchen.Ingredient.{Ingredient, Stock, find, assign}
use plazza.Kitchen.IngredientLaws.{find-assign}
use plazza.Kitchen.IngredientStock.{
  IngredientStock, value_or_zero, consume_one, consume, consumed, wait_and_consume, increment_all,
  regen,
}
use plazza.Kitchen.StockLaws.{
  count, quantity, CanGrow, regen-available, find-increment_all, wait_and_consume-takes,
}

-- The stock has an entry for the ingredient.
abbrev pub Has : Stock → Ingredient → Type 0
Has stock i = (n : ℕ) × (find i stock ≡ some n)

-- Each quantity can still grow by 1, `k` times.
abbrev pub Fits : ℕ → Stock → Type 0
Fits k stock = (i : Ingredient) → quantity i stock + k < 2 ^ 64

Has-CanGrow :
    (needed : List Ingredient) (stock : Stock) (k : ℕ)
    → Fits (suc k) stock
    → All (Has stock) needed
    → All (CanGrow stock) needed
Has-CanGrow [] stock k fits h = tt
Has-CanGrow (i ∷ needed) stock k fits ((n, e), h) =
    ((n, e, omega (arith, fits i, ap value_or_zero e)), Has-CanGrow needed stock k fits h)

increment_all-Has : (stock : Stock) (i : Ingredient) → Has stock i → Has (increment_all stock) i
increment_all-Has stock i (n, e) = ((n + 1) % 2 ^ 64, find-increment_all i stock e)

assign-Has : (stock : Stock) (i j n : ℕ) → Has stock i → Has (assign j n stock) i
assign-Has stock i j n (m, e) = elim (Bool-cases (j == i)) [
  | inl same ↦ (n, ground (arith, find-assign i j n stock))
  | inr other ↦ (m, ground (arith, find-assign i j n stock))
]

consume-Has :
    (needed : List Ingredient) (stock : Stock) (i : Ingredient)
    → Has stock i
    → Has (consume needed stock) i
unfolding consume consume_one
consume-Has [] stock i h = h
consume-Has (j ∷ needed) stock i h =
    consume-Has needed (consume_one j stock) i (assign-Has stock i j _ h)

quantity-increment_all :
    (i : Ingredient) (stock : Stock) → quantity i (increment_all stock) ≤ quantity i stock + 1
unfolding find increment_all
quantity-increment_all i [] = omega arith
quantity-increment_all i ((j, m) ∷ stock) = ground (arith, quantity-increment_all i stock)

-- After a round of the regeneration the recipe is there, and is taken.
pub record Fed (needed : List Ingredient) (s : IngredientStock) (k : ℕ) : Type 0 where
  pub grown : IngredientStock
  pub left : IngredientStock
  pub regrows : regen s ≡ some grown
  pub eats : wait_and_consume needed grown ≡ consumed left
  pub runs : left.running ≡ true
  pub fits : Fits k left.stock
  pub keeps : (i : Ingredient) → Has s.stock i → Has left.stock i

pub feed :
    (needed : List Ingredient) (s : IngredientStock) (k : ℕ)
    → s.running ≡ true
    → Fits (suc k) s.stock
    → All (Has s.stock) needed
    → ((i : Ingredient) → count i needed ≤ 1)
    → Fed needed s k
unfolding regen wait_and_consume
feed needed s k running fits has once =
    let grown : IngredientStock = record s { stock = increment_all s.stock } in
    let left : IngredientStock = record s { stock = consume needed (increment_all s.stock) } in
    let there = regen-available needed s.stock (Has-CanGrow needed s.stock k fits has) in
    let eats : wait_and_consume needed grown ≡ consumed left = ground (arith, there) in
    let takes =
      wait_and_consume-takes needed grown once
        (λ i. omega (arith, fits i, quantity-increment_all i s.stock)) {s' = left} eats in
    record {
      grown = grown;
      left = left;
      regrows = rw running;
      eats = eats;
      runs = running;
      fits = λ i. omega (arith, fits i, quantity-increment_all i s.stock, takes.1 i);
      keeps = λ i h. consume-Has needed (increment_all s.stock) i (increment_all-Has s.stock i h);
    }
