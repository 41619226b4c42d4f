-- ===== src/Kitchen/StockLaws.antt =====
-- What a cook may rely on: all or nothing, exact amounts, and a stock that always comes back.
use plazza.Prelude.{
  ℕ, suc, ◌+◌, ◌-◌, ◌^◌, ◌%◌, ◌≤◌, ◌<◌, ◌≡◌, refl, ap, sym, inl, inr, ◌↔◌, All, true, false, List,
  [], ◌∷◌, Option, none, some, ◌==◌, ==_iff, if◌then◌else◌, arith, Bool-cases,
}
use plazza.Kitchen.Ingredient.{Ingredient, Stock, find}
use plazza.Kitchen.IngredientLaws.{find-assign}
use plazza.Kitchen.IngredientStock.{
  IngredientStock, all_available, is_positive, decrement, value_or_zero, consume_one, consume,
  waits, refused, consumed, wait_and_consume, increment_all, regen,
}

-- How often an ingredient is asked for.
abbrev pub count : Ingredient → List Ingredient → ℕ
count i [] = 0
count i (j ∷ needed) = if j == i then suc (count i needed) else count i needed

-- The quantity of an ingredient in stock, 0 if there is no entry.
abbrev pub quantity : Ingredient → Stock → ℕ
quantity i stock = value_or_zero (find i stock)

quantity-consume_one :
    (i j : ℕ) (stock : Stock)
    → quantity i (consume_one j stock)
      ≡ (if j == i then decrement (quantity j stock) else quantity i stock)
unfolding consume_one
quantity-consume_one i j stock =
    ground (arith, find-assign i j (decrement (quantity j stock)) stock)

quantity-taken :
    (i j : ℕ) (stock : Stock)
    → (j == i) ≡ true
    → quantity i stock < 2 ^ 64
    → 0 < quantity i stock
    → quantity i (consume_one j stock) + 1 ≡ quantity i stock
quantity-taken i j stock e fits some_left =
    let same : quantity j stock ≡ quantity i stock =
      ap (λ k. quantity k stock) ((==_iff j i).0 e) in
    let taken : quantity i (consume_one j stock) ≡ decrement (quantity j stock) =
      rw e at (quantity-consume_one i j stock) in
    omega arith

quantity-spared :
    (i j : ℕ) (stock : Stock)
    → (j == i) ≡ false
    → quantity i (consume_one j stock) ≡ quantity i stock
quantity-spared i j stock e = rw e at (quantity-consume_one i j stock)

-- Where the demand for an ingredient is covered, it goes down by exactly that demand.
quantity-consume :
    (i : ℕ) (needed : List Ingredient) (stock : Stock)
    → quantity i stock < 2 ^ 64
    → count i needed ≤ quantity i stock
    → quantity i (consume needed stock) + count i needed ≡ quantity i stock
unfolding consume
quantity-consume i [] stock fits enough = omega arith
quantity-consume i (j ∷ needed) stock fits enough = elim (Bool-cases (j == i)) [
  | inl e ↦
      let covered : suc (count i needed) ≤ quantity i stock = rw e at enough in
      let one = quantity-taken i j stock e fits (omega arith) in
      let rest = quantity-consume i needed (consume_one j stock) (omega arith) (omega arith) in
      rw e (omega arith)
  | inr e ↦
      let covered : count i needed ≤ quantity i stock = rw e at enough in
      let same = quantity-spared i j stock e in
      let rest = quantity-consume i needed (consume_one j stock) (omega arith) (omega arith) in
      rw e (omega arith)
]

is_positive-lt : (o : Option ℕ) → is_positive o ≡ true → 0 < value_or_zero o
is_positive-lt none h = absurd (cc)
is_positive-lt (some n) h = ground arith

-- The check covers a demand of one of each ingredient.
all_available-quantity :
    (i : ℕ) (needed : List Ingredient) (stock : Stock)
    → all_available needed stock ≡ true
    → 0 < count i needed
    → 0 < quantity i stock
unfolding all_available
all_available-quantity i [] stock h k = absurd (omega arith)
all_available-quantity i (j ∷ needed) stock h k = elim (Bool-cases (j == i)) [
  | inl e ↦
      is_positive-lt (find i stock)
        (rw (ap (λ (k : ℕ). find k stock) (sym ((==_iff j i).0 e))) (ground arith))
  | inr e ↦ all_available-quantity i needed stock (ground arith) (rw e at k)
]

pub find-increment_all :
    (i : ℕ) (stock : Stock) {n : ℕ}
    → find i stock ≡ some n
    → find i (increment_all stock) ≡ some ((n + 1) % 2 ^ 64)
unfolding find increment_all
find-increment_all i [] {n} h = absurd (cc)
find-increment_all i ((j, m) ∷ stock) {n} h = ground (arith, find-increment_all i stock {n = n})

module _ (needed : List Ingredient) (s : IngredientStock) where
  pub wait_and_consume-consumed :
      {s' : IngredientStock}
      → wait_and_consume needed s ≡ consumed s'
      → (s.running ≡ true)
        × (all_available needed s.stock ≡ true)
        × (s' ≡ record s { stock = consume needed s.stock })
  unfolding wait_and_consume
  wait_and_consume-consumed h = ground arith

  -- A cook whose recipe names no ingredient twice takes, in one step, exactly one unit of each
  -- ingredient that it names and nothing of the others; it does so only while the kitchen runs,
  -- and no quantity passes below 0. The quantities are
  -- those of a std::size_t.
  pub wait_and_consume-takes :
      ((i : Ingredient) → count i needed ≤ 1)
      → ((i : Ingredient) → quantity i s.stock < 2 ^ 64)
      → {s' : IngredientStock} → wait_and_consume needed s ≡ consumed s'
      → (s.running ≡ true)
        × ((i : Ingredient) → quantity i s'.stock + count i needed ≡ quantity i s.stock)
  wait_and_consume-takes once fits {s'} h =
      let (running, enough, same) = wait_and_consume-consumed h in
      (running, λ i. rw same (quantity-consume i needed s.stock (fits i) (covered enough i)))
    where
      covered :
          all_available needed s.stock ≡ true
          → (i : Ingredient) → count i needed ≤ quantity i s.stock
      covered enough i = grind (arith, all_available-quantity i needed s.stock enough, once i)

  -- A kitchen that closes makes no cook wait: the turn waits exactly where the kitchen runs and
  -- something is missing, and is refused exactly where the kitchen is closed.
  pub wait_and_consume-waits :
      ((wait_and_consume needed s ≡ waits)
        ↔ ((s.running ≡ true) × (all_available needed s.stock ≡ false)))
      × ((wait_and_consume needed s ≡ refused) ↔ (s.running ≡ false))
  unfolding wait_and_consume
  wait_and_consume-waits = ground arith

-- While the kitchen runs, an ingredient asked for twice passes the check with a single unit left,
-- and its quantity then wraps to the largest value of its type.
pub wait_and_consume-wraps :
    (i : Ingredient) (s : IngredientStock)
    → s.running ≡ true
    → find i s.stock ≡ some 1
    → (s' : IngredientStock) × (wait_and_consume (i ∷ i ∷ []) s ≡ consumed s')
      × (quantity i s'.stock ≡ 2 ^ 64 - 1)
unfolding wait_and_consume all_available consume
wait_and_consume-wraps i s running one = (
  record s { stock = consume (i ∷ i ∷ []) s.stock },
  ground arith,
  ground
      (arith, quantity-consume_one i i (consume_one i s.stock), quantity-consume_one i i s.stock),
)

-- The stock has an entry for the ingredient, not at the top of its range.
abbrev pub CanGrow : Stock → Ingredient → Type 0
CanGrow stock i = (n : ℕ) × (find i stock ≡ some n) × (n + 1 < 2 ^ 64)

pub regen-available :
    (needed : List Ingredient) (stock : Stock)
    → All (CanGrow stock) needed
    → all_available needed (increment_all stock) ≡ true
unfolding all_available
regen-available [] stock h = refl
regen-available (i ∷ needed) stock ((n, found, fits), h) =
    rw (find-increment_all i stock found, regen-available needed stock h) (ground arith)

-- No cook starves: while the kitchen runs, one round of the regeneration makes every demand
-- available for ingredients that the stock knows and that are not at the top of their range.
pub regen-unblocks :
    (needed : List Ingredient) (s : IngredientStock)
    → s.running ≡ true
    → All (CanGrow s.stock) needed
    → (s' : IngredientStock) × (s'' : IngredientStock) × (regen s ≡ some s')
      × (wait_and_consume needed s' ≡ consumed s'')
unfolding regen wait_and_consume
regen-unblocks needed s running h = (
  record s { stock = increment_all s.stock },
  record s { stock = consume needed (increment_all s.stock) },
  rw running,
  ground (arith, regen-available needed s.stock h),
)
