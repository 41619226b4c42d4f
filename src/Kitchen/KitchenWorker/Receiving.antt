-- ===== src/Kitchen/KitchenWorker/Receiving.antt =====
-- What a packet that the main loop receives adds to the pizzas in a kitchen.
use plazza.Prelude.{
  total-append, ℕ, ◌≡◌, refl, sym, ap, ◌∙◌, inl, inr, Bool, true, false, List, [], ◌∷◌, Option,
  none, some, arith, append-nil, Bool-cases, ◌==◌, if◌then◌else◌, if_true, if_false, if_both, subst,
}
use plazza.Errors.{Result, ok, thrown}
use plazza.Pizza.{Pizza}
use plazza.Pizza.Recipe.{PizzaRecipe, with_size}
use plazza.Pizza.Factory.{create, copy_of}
use plazza.Pizza.FactoryLaws.{IsBuiltIn, built_in, built_in-type, create-IsBuiltIn, create_result}
use plazza.Ipc.{Packet, PackedPizza, pack, unpack}
use plazza.Ipc.MessageType
use plazza.Kitchen.ThreadPool.{ThreadPool, add_pizza, is_full}
use plazza.Kitchen.ThreadPool.Capacity.{IsValid, add_pizza-IsValid}
use plazza.Kitchen.KitchenWorker.{
  KitchenWorker, full_packet, send_status_response, after_add, offer, handle_packet, receive_one,
}
use plazza.Kitchen.KitchenWorker.Weights.{ordered_in, of_recipe, pack-unpack}
use plazza.Kitchen.KitchenWorker.Sending.{Gains, stays, send-Gains, send_answer-Gains}
use plazza.Reception.{Outcome, returned, threw}
use plazza.Reception.LoadBalancer.Outcomes.{OnReturn}

module _ (f : Pizza → ℕ) (send_error : Packet → Option (List ℕ)) where
  -- The pool has room, or not.
  after_add-Gains :
      (now : ℕ) (pizza : PackedPizza) (recipe : PizzaRecipe) (s : KitchenWorker)
      → of_recipe f recipe ≡ f (unpack pizza)
      → OnReturn
          (Gains f send_error (f (unpack pizza)) s)
          (after_add send_error now pizza s (add_pizza recipe s.pool))
  unfolding add_pizza
  after_add-Gains now pizza recipe s same = elim (Bool-cases (is_full s.pool)) [
    | inl e ↦ rw e (send-Gains f send_error (full_packet pizza) s)
    | inr e ↦ rw e (record {
      weight = omega (arith, total-append (of_recipe f) s.pool.queue (recipe ∷ []), same);
      built = λ h. h;
      valid = λ v.
          subst (λ (r : ThreadPool × Bool). IsValid r.0) (if_false _ _ _ e)
            (add_pizza-IsValid recipe s.pool v);
      same_threads = (refl, refl);
      sent = [];
      grows = sym (append-nil s.pool.results);
    })
  ]

  offer-Gains :
      (now : ℕ) (pizza : PackedPizza) (s : KitchenWorker) (made : Result PizzaRecipe)
      → ((recipe : PizzaRecipe) → made ≡ ok recipe → of_recipe f recipe ≡ f (unpack pizza))
      → OnReturn (Gains f send_error (f (unpack pizza)) s) (offer send_error now pizza made s)
  offer-Gains now pizza s (thrown e) same = tt
  offer-Gains now pizza s (ok recipe) same = after_add-Gains now pizza recipe s (same recipe refl)

  -- What the factory makes of the bytes of a packet has a Done packet of the same bytes.
  copy_of-same :
      (pizza : PackedPizza) (found : Option PizzaRecipe) (recipe : PizzaRecipe)
      → built_in (unpack pizza).type ≡ found
      → copy_of found (unpack pizza).size ≡ ok recipe
      → of_recipe f recipe ≡ f (unpack pizza)
  unfolding copy_of with_size
  copy_of-same pizza none recipe e h = absurd (cc)
  copy_of-same pizza (some prototype) recipe e h =
      let made : with_size prototype (unpack pizza).size ≡ recipe = cc in
      ap (of_recipe f) (sym made)
      ∙ ap (λ t. f (unpack (pack (record { type = t; size = (unpack pizza).size }))))
          (built_in-type (unpack pizza).type prototype e)
      ∙ ap f (pack-unpack pizza)

  Gains-if :
      (b : Bool) (n : ℕ) (s : KitchenWorker) (x y : Outcome KitchenWorker)
      → OnReturn (Gains f send_error n s) x
      → OnReturn (Gains f send_error 0 s) y
      → OnReturn (Gains f send_error (if b then n else 0) s) (if b then x else y)
  Gains-if true n s x y h k = h
  Gains-if false n s x y h k = k

  -- A call of the factory before it changes nothing of this.
  registered :
      (n : ℕ) (pizza : Pizza) (s : KitchenWorker) (o : Outcome KitchenWorker)
      → OnReturn
          (Gains f send_error n
            (record s { registry = (create pizza.type pizza.size s.registry).0 }))
          o
      → OnReturn (Gains f send_error n s) o
  registered n pizza s (threw e u) g = tt
  registered n pizza s (returned u) g = record {
    weight = g.weight;
    built = λ b. g.built (create-IsBuiltIn pizza.type pizza.size s.registry b);
    valid = g.valid;
    same_threads = g.same_threads;
    sent = g.sent;
    grows = g.grows;
  }

  -- A registry that has only the recipes of the program answers for each type as the table does.
  pizza-Gains :
      (now : ℕ) (pizza : PackedPizza) (s : KitchenWorker)
      → IsBuiltIn s.registry
      → let made = create (unpack pizza).type (unpack pizza).size s.registry in
        OnReturn
          (Gains f send_error (f (unpack pizza)) s)
          (offer send_error now pizza made.1 (record s { registry = made.0 }))
  pizza-Gains now pizza s built =
      let made = create (unpack pizza).type (unpack pizza).size s.registry in
      let t : KitchenWorker = record s { registry = made.0 } in
      registered (f (unpack pizza)) (unpack pizza) s (offer send_error now pizza made.1 t) (
        offer-Gains now pizza t made.1 (λ recipe e.
          copy_of-same pizza (built_in (unpack pizza).type) recipe refl
            (sym (create_result (unpack pizza).type (unpack pizza).size s.registry built) ∙ e)))

  handle_packet-Gains :
      (now : ℕ) (packet : Packet) (s : KitchenWorker)
      → IsBuiltIn s.registry
      → OnReturn
          (Gains f send_error (ordered_in f packet) s)
          (handle_packet send_error now packet s)
  unfolding handle_packet send_status_response
  handle_packet-Gains now packet s built =
      Gains-if (packet.type == MessageType.pizza) (f (unpack packet.pizza)) s _ _
        (pizza-Gains now packet.pizza s built)
        (if_both (OnReturn (Gains f send_error 0 s)) (packet.type == MessageType.status_request) _ _
          (send_answer-Gains f send_error s _) (stays f send_error s))

  ordered_in-shutdown :
      (packet : Packet) → (packet.type == MessageType.shutdown) ≡ true → ordered_in f packet ≡ 0
  ordered_in-shutdown packet e = ground arith

  pub receive_one-Gains :
      (now : ℕ) (packet : Packet) (s : KitchenWorker)
      → IsBuiltIn s.registry
      → OnReturn
          (Gains f send_error (ordered_in f packet) s)
          (receive_one send_error now (some packet) s)
  unfolding receive_one
  receive_one-Gains now packet s built = elim (Bool-cases (packet.type == MessageType.shutdown)) [
    | inl e ↦
        subst (OnReturn (Gains f send_error (ordered_in f packet) s)) (sym (if_true _ _ _ e))
          (record {
            weight = omega (arith, ordered_in-shutdown packet e);
            built = λ h. h;
            valid = λ v. v;
            same_threads = (refl, refl);
            sent = [];
            grows = sym (append-nil s.pool.results);
          })
    | inr e ↦
        subst (OnReturn (Gains f send_error (ordered_in f packet) s)) (sym (if_false _ _ _ e))
          (handle_packet-Gains now packet s built)
  ]
