-- ===== src/Reception/LoadBalancer/Polling/Stocks.antt =====
-- The stock of a kitchen, from the kitchen's map to that of the reception: the quantities that the
-- kitchen lists in its answer, and what `handleStatusReplyPacket` stores of them.
use plazza.Prelude.{
  ℕ, zero, suc, ◌+◌, ◌^◌, ◌%◌, ◌<◌, ◌≡◌, refl, sym, ap, ◌∙◌, List, [], ◌∷◌, Option, none, some,
  get_elem?, All, arith, if_true, if_false, ◌==◌,
}
use plazza.Errors.{Result, ok, thrown, ◌>>=◌}
use plazza.Kitchen.Ingredient.{Ingredient, Stock, find, assign, k_all_ingredients}
use plazza.Kitchen.IngredientLaws.{find-assign}
use plazza.Kitchen.KitchenWorker.{quantities, quantity_at}
use plazza.Reception.{DoneCallback, store_stock}

-- The reception shows of an ingredient what the kitchen has, modulo 2 ^ 32.
abbrev pub IsShown : Stock → Stock → List ℕ × Ingredient → Type 0
IsShown kitchen shown (name, i) =
    (n : ℕ) × (find i kitchen ≡ some n) × (find i shown ≡ some (n % 2 ^ 32))

module _ {S : Type 0} (done_cb : DoneCallback S) where
  find-store_below :
      (i j : ℕ) (ns : List ℕ) (stock : Stock)
      → i < j
      → find i (store_stock done_cb j ns stock) ≡ find i stock
  unfolding store_stock
  find-store_below i j [] stock h = refl
  find-store_below i j (n ∷ ns) stock h =
      find-store_below i (j + 1) ns (assign j n stock) (omega arith)
      ∙ (find-assign i j n stock ∙ if_false (j == i) _ _ (ground arith))

  find-store :
      (j i : ℕ) (ns : List ℕ) (stock : Stock) (n : ℕ)
      → get_elem? ns i ≡ some n
      → find (j + i) (store_stock done_cb j ns stock) ≡ some n
  unfolding store_stock
  find-store j i [] stock n h = absurd (cc)
  find-store j zero (m ∷ ns) stock n h =
      ap (λ k. find k (store_stock done_cb (j + 1) ns (assign j m stock))) (omega arith)
      ∙ find-store_below j (j + 1) ns (assign j m stock) (omega arith)
      ∙ find-assign j j m stock
      ∙ if_true (j == j) _ _ (ground arith)
      ∙ h
  find-store j (suc i) (m ∷ ns) stock n h =
      ap (λ k. find k (store_stock done_cb (j + 1) ns (assign j m stock))) (omega arith)
      ∙ find-store (j + 1) i ns (assign j m stock) n h

-- What the code of one entry has met where it returns.
record FirstSent (a : Option ℕ) (r : Result (List ℕ)) (ns : List ℕ) : Type 0 where
  n : ℕ
  later : List ℕ
  there : a ≡ some n
  returns : r ≡ ok later
  sent : ns ≡ (n % 2 ^ 32) ∷ later

first_sent :
    (a : Option ℕ) (r : Result (List ℕ)) (ns : List ℕ)
    → (quantity_at a >>= λ n. r >>= λ later. ok (n ∷ later)) ≡ ok ns
    → FirstSent a r ns
first_sent none r ns h = absurd (cc)
first_sent (some n) (thrown e) ns h = absurd (cc)
first_sent (some n) (ok later) ns h = record {
  n = n;
  later = later;
  there = refl;
  returns = refl;
  sent = cc;
}

-- The list of quantities has the one of each entry at the place of the entry.
quantity_sent :
    (entries : List (List ℕ × Ingredient)) (ns : List ℕ) (stock : Stock) (i : ℕ)
    (entry : List ℕ × Ingredient)
    → quantities entries stock ≡ ok ns
    → get_elem? entries i ≡ some entry
    → (n : ℕ) × (find entry.1 stock ≡ some n) × (get_elem? ns i ≡ some (n % 2 ^ 32))
unfolding quantities
quantity_sent [] ns stock i entry h at = absurd (cc)
quantity_sent ((name, k) ∷ entries) ns stock zero entry h at =
    let first : FirstSent (find k stock) (quantities entries stock) ns =
      first_sent (find k stock) (quantities entries stock) ns h in
    let same : (name, k) ≡ entry = cc in
    (first.n, ap (λ e. find e.1 stock) (sym same) ∙ first.there, ap (λ l. get_elem? l 0) first.sent)
quantity_sent ((name, k) ∷ entries) ns stock (suc i) entry h at =
    let first : FirstSent (find k stock) (quantities entries stock) ns =
      first_sent (find k stock) (quantities entries stock) ns h in
    let (n, there, sent) = quantity_sent entries first.later stock i entry first.returns at in
    (n, there, ap (λ l. get_elem? l (suc i)) first.sent ∙ sent)

module _ {S : Type 0} (done_cb : DoneCallback S) (kitchen old : Stock) (ns : List ℕ)
    (listed : quantities k_all_ingredients kitchen ≡ ok ns) where
  entry-IsShown :
      (i : ℕ) (name : List ℕ)
      → get_elem? k_all_ingredients i ≡ some (name, i)
      → IsShown kitchen (store_stock done_cb 0 ns old) (name, i)
  entry-IsShown i name at =
      let (n, there, sent) = quantity_sent k_all_ingredients ns kitchen i (name, i) listed at in
      (
        n,
        there,
        ap (λ k. find k (store_stock done_cb 0 ns old)) (omega arith)
            ∙ find-store done_cb 0 i ns old (n % 2 ^ 32) sent,
      )

  -- Each of the nine ingredients.
  pub stock-IsShown : All (IsShown kitchen (store_stock done_cb 0 ns old)) k_all_ingredients
  stock-IsShown = (
    entry-IsShown 0 _ refl,
    (
      entry-IsShown 1 _ refl,
      (
        entry-IsShown 2 _ refl,
        (
          entry-IsShown 3 _ refl,
          (
            entry-IsShown 4 _ refl,
            (
              entry-IsShown 5 _ refl,
              (entry-IsShown 6 _ refl, (entry-IsShown 7 _ refl, (entry-IsShown 8 _ refl, tt))),
            ),
          ),
        ),
      ),
    ),
  )
