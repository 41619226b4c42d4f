-- ===== src/Reception/LoadBalancer/Paths.antt =====
-- The names that spawnKitchen gives to the two queues of a kitchen.
use plazza.Prelude.{ℕ, suc, ◌<◌, ◌≢◌, List, [], ◌∷◌, codes, All, arith}
use plazza.Text.Reading.{to_string-injective, after_same, first_same}
use plazza.Reception.{KitchenHandle}
use plazza.Reception.LoadBalancer.{LoadBalancer, order_path, result_path}
use plazza.Reception.LoadBalancer.Kitchens.{Ascending}
use plazza.Reception.LoadBalancer.Validity.{IsValid}

-- The paths of the queues of these kitchens, and of those of the next one.
abbrev pub paths_of : List KitchenHandle → ℕ → List (List ℕ)
paths_of [] next = order_path next ∷ result_path next ∷ []
paths_of (k ∷ kitchens) next = order_path k.id ∷ result_path k.id ∷ paths_of kitchens next

abbrev pub AllDiffer : List (List ℕ) → Type 0
AllDiffer [] = Unit
AllDiffer (p ∷ ps) = All (λ q. p ≢ q) ps × AllDiffer ps

order_path-differs : (i j : ℕ) → i ≢ j → order_path i ≢ order_path j
unfolding order_path
order_path-differs i j h e = h (to_string-injective i j (after_same (codes "order_queue_") _ _ e))

result_path-differs : (i j : ℕ) → i ≢ j → result_path i ≢ result_path j
unfolding result_path
result_path-differs i j h e = h (to_string-injective i j (after_same (codes "result_queue_") _ _ e))

order_path-result_path : (i j : ℕ) → order_path i ≢ result_path j
unfolding order_path result_path
order_path-result_path i j e = let f = first_same e in omega arith

result_path-order_path : (i j : ℕ) → result_path i ≢ order_path j
unfolding order_path result_path
result_path-order_path i j e = let f = first_same e in omega arith

-- The paths of one kitchen are none of those of the kitchens with greater numbers.
abbrev Apart : ℕ → List ℕ → Type 0
Apart i q = (order_path i ≢ q) × (result_path i ≢ q)

both-Apart : (i j : ℕ) → i < j → Apart i (order_path j) × Apart i (result_path j)
both-Apart i j h =
    let other : i ≢ j = λ e. omega arith in
    (
      (order_path-differs i j other, result_path-order_path i j),
      (order_path-result_path i j, result_path-differs i j other),
    )

paths_of-Apart :
    (i lo hi : ℕ) (ks : List KitchenHandle)
    → i < lo
    → Ascending lo ks hi
    → All (Apart i) (paths_of ks hi)
paths_of-Apart i lo hi [] h a =
    let (order, result) = both-Apart i hi (omega arith) in (order, (result, tt))
paths_of-Apart i lo hi (k ∷ ks) h a =
    let (order, result) = both-Apart i k.id (omega (arith, a.0)) in
    (order, (result, paths_of-Apart i (suc k.id) hi ks (omega (arith, a.0)) a.1))

All-each :
    (P Q : List ℕ → Type 0) (ps : List (List ℕ)) → All (λ p. P p × Q p) ps → All P ps × All Q ps
All-each P Q [] h = (tt, tt)
All-each P Q (p ∷ ps) h = let (l, r) = All-each P Q ps h.1 in ((h.0.0, l), (h.0.1, r))

paths_of-AllDiffer :
    (lo hi : ℕ) (ks : List KitchenHandle) → Ascending lo ks hi → AllDiffer (paths_of ks hi)
paths_of-AllDiffer lo hi [] a = ((order_path-result_path hi hi, tt), (tt, tt))
paths_of-AllDiffer lo hi (k ∷ ks) a =
    let (l, r) =
      All-each _ _ (paths_of ks hi) (paths_of-Apart k.id (suc k.id) hi ks (omega arith) a.1) in
    ((order_path-result_path k.id k.id, l), (r, paths_of-AllDiffer (suc k.id) hi ks a.1))

-- In a valid reception the queues of all kitchens and those that the next kitchen will get have
-- different paths.
pub IsValid-AllDiffer :
    {S : Type 0} (lb : LoadBalancer S)
    → IsValid lb
    → AllDiffer (paths_of lb.kitchens lb.next_kitchen_id)
IsValid-AllDiffer lb v = paths_of-AllDiffer 0 lb.next_kitchen_id lb.kitchens v.numbered
