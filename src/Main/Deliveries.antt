-- ===== src/Main/Deliveries.antt =====
-- Orders are announced in the order in which they came, by the number of pizzas done.
use plazza.Prelude.{
  ℕ, zero, suc, ◌+◌, ◌<◌, ◌≡◌, refl, sym, ap, ◌∙◌, List, [], ◌∷◌, ◌++◌, map, arith, length, All,
  total, append-nil, append_assoc,
}
use plazza.Pizza.{PizzaType, PizzaSize}
use plazza.Main.{Orders, count_down, on_done}

-- The callback for one pizza after another: the kitchen's number, the type and the size.
unfoldable pub deliver : List (ℕ × PizzaType × PizzaSize) → Orders → Orders
unfolding on_done
deliver [] orders = orders
deliver ((id, type, size) ∷ pizzas) orders = deliver pizzas (on_done id type size orders)

abbrev pub IsOpen : ℕ × ℕ → Type 0
IsOpen order = 0 < order.1

abbrev pub Delivery : Type 0
Delivery = ℕ × PizzaType × PizzaSize

abbrev pub orders_of : List (ℕ × ℕ) → ℕ → List ℕ → Orders
orders_of pending next ready = record { pending = pending; next_order_id = next; ready = ready }

module _ (rest : List (ℕ × ℕ)) (next : ℕ) (ready : List ℕ) (id : ℕ) where
  count_down-more :
      (n : ℕ) (orders : Orders)
      → count_down id (suc (suc n)) rest orders ≡ record orders { pending = (id, suc n) ∷ rest }
  unfolding count_down
  count_down-more n orders = ground arith

  -- As many pizzas as the first order still needs complete it, and it alone.
  deliver-first :
      (n m : ℕ) (pizzas : List Delivery)
      → length pizzas ≡ suc n + m
      → (more : List Delivery) × (length more ≡ m)
        × (deliver pizzas (orders_of ((id, suc n) ∷ rest) next ready)
            ≡ deliver more (orders_of rest next (ready ++ (id ∷ []))))
  unfolding deliver count_down
  deliver-first n m [] h = absurd (omega arith)
  deliver-first zero m (p ∷ pizzas) h = (pizzas, omega arith, refl)
  deliver-first (suc n) m (p ∷ pizzas) h =
      let (more, l, e) = deliver-first n m pizzas (omega arith) in
      (
        more,
        l,
        ap (deliver pizzas) (count_down-more n (orders_of ((id, suc (suc n)) ∷ rest) next ready))
            ∙ e,
      )

deliver-front :
    (front rest : List (ℕ × ℕ)) (next : ℕ) (ready : List ℕ) (pizzas : List Delivery)
    → All IsOpen front
    → length pizzas ≡ total (λ o. o.1) front
    → deliver pizzas (orders_of (front ++ rest) next ready)
      ≡ orders_of rest next (ready ++ map (λ o. o.0) front)
unfolding deliver
deliver-front [] rest next ready [] h l = ap (orders_of rest next) (sym (append-nil ready))
deliver-front [] rest next ready (p ∷ pizzas) h l = absurd (omega arith)
deliver-front ((id, zero) ∷ front) rest next ready pizzas h l = absurd (omega (arith, h.0))
deliver-front ((id, suc n) ∷ front) rest next ready pizzas h l =
    let (more, k, e) =
      deliver-first (front ++ rest) next ready id n (total (λ o. o.1) front) pizzas l in
    e
    ∙ deliver-front front rest next (ready ++ (id ∷ [])) more h.1 k
    ∙ ap (orders_of rest next) (append_assoc ready (id ∷ []) (map (λ o. o.0) front))

-- Once as many pizzas are done as the first orders in the queue still need together, exactly these
-- orders have been announced, first come first, and the others wait: whatever pizzas those were
-- and whichever kitchens they came from.
pub deliver-announces :
    (front rest : List (ℕ × ℕ)) (orders : Orders) (pizzas : List Delivery)
    → orders.pending ≡ front ++ rest
    → All IsOpen front
    → length pizzas ≡ total (λ o. o.1) front
    → deliver pizzas orders
      ≡ record orders { pending = rest; ready = orders.ready ++ map (λ o. o.0) front }
deliver-announces front rest orders pizzas e h l =
    ap (λ p. deliver pizzas (orders_of p orders.next_order_id orders.ready)) e
    ∙ deliver-front front rest orders.next_order_id orders.ready pizzas h l
