-- ===== src/Kitchen/KitchenWorker/Answers.antt =====
-- What the reception makes of a kitchen's answer to a request for its status.
use plazza.Prelude.{
  ℕ, ◌%◌, ◌≡◌, sym, ap, ◌∙◌, inl, inr, true, false, List, [], ◌∷◌, ◌++◌, some, map, All,
  append_assoc, append-nil, Bool-cases, ◌==◌,
}
use plazza.Pizza.Recipe.{PizzaRecipe, get_name, with_size}
use plazza.Pizza.Factory.{create, copy_of}
use plazza.Pizza.FactoryLaws.{IsBuiltIn, built_in, built_in-type, create-IsBuiltIn, create_result}
use plazza.Ipc.{Packet}
use plazza.Kitchen.Cook.{CookStatus, cooking}
use plazza.Kitchen.ThreadPool.{ThreadPool, get_status}
use plazza.Kitchen.KitchenWorker.{cook_packet, reply_packet, answer}
use plazza.Reception.{
  KitchenHandle, Shared, Outcome, returned, DoneCallback, push_cook, finish_cook, store_stock,
  handle_cook_status_packet, handle_status_reply_packet, handle_packet,
}
use plazza.Reception.LoadBalancer.{drain, ◌>>=◌}

-- A cook's status fits the packet: each number is a byte, a cook at work has the name of a type
-- that the factory knows, and another has none.
pub record IsSendable (c : CookStatus) : Type 0 where
  pub id_fits : c.id % 256 ≡ c.id
  pub state_fits : c.state % 256 ≡ c.state
  pub type_fits : c.type % 256 ≡ c.type
  pub size_fits : c.size % 256 ≡ c.size
  pub idle_name : (c.state == cooking) ≡ false → c.current_pizza ≡ []
  pub cooking_name : (c.state == cooking) ≡ true → c.current_pizza ≡ get_name c.type
  pub cooking_known :
      (c.state == cooking) ≡ true → (recipe : PizzaRecipe) × (built_in c.type ≡ some recipe)

module _ {S : Type 0} (done_cb : DoneCallback S) where
  abbrev pub push : KitchenHandle → CookStatus → KitchenHandle
  push k c = record k { pending_cooks = k.pending_cooks ++ (c ∷ []) }

  abbrev pub got : KitchenHandle → Shared S → Outcome (KitchenHandle × Shared S)
  got k shared = returned (k, shared)

  push-name :
      (k : KitchenHandle) (c : CookStatus) (name : List ℕ) (shared : Shared S)
      → c.current_pizza ≡ name
      → got (push k (record c { current_pizza = name })) shared ≡ got (push k c) shared
  push-name k c name shared e =
      ap (λ n. got (push k (record c { current_pizza = n })) shared) (sym e)

  handle_idle :
      (k : KitchenHandle) (c : CookStatus) (shared : Shared S)
      → IsSendable c
      → (c.state == cooking) ≡ false
      → handle_packet done_cb k (cook_packet c) shared ≡ got (push k c) shared
  unfolding handle_packet handle_cook_status_packet cook_packet push_cook
  handle_idle k c shared s e =
      rw (s.id_fits, s.state_fits, s.type_fits, s.size_fits, e)
        (push-name k c [] shared (s.idle_name e))

  -- The registry after the lookup of the cook's pizza.
  abbrev pub looked_up : CookStatus → Shared S → Shared S
  looked_up c shared = record shared { registry = (create c.type c.size shared.registry).0 }

  handle_cooking :
      (k : KitchenHandle) (c : CookStatus) (shared : Shared S) (recipe : PizzaRecipe)
      → IsSendable c
      → (c.state == cooking) ≡ true
      → built_in c.type ≡ some recipe
      → IsBuiltIn shared.registry
      → handle_packet done_cb k (cook_packet c) shared ≡ got (push k c) (looked_up c shared)
  unfolding handle_packet handle_cook_status_packet cook_packet push_cook finish_cook copy_of
      with_size
  handle_cooking k c shared recipe s e known built =
      rw (s.id_fits, s.state_fits, s.type_fits, s.size_fits, e)
        (rw (create_result c.type c.size shared.registry built, known)
          (push-name k c (get_name recipe.type) (looked_up c shared)
            (s.cooking_name e ∙ ap get_name (sym (built_in-type c.type recipe known)))))

  handle_cook :
      (k : KitchenHandle) (c : CookStatus) (shared : Shared S)
      → IsBuiltIn shared.registry
      → IsSendable c
      → (shared' : Shared S) × IsBuiltIn shared'.registry
        × (handle_packet done_cb k (cook_packet c) shared ≡ got (push k c) shared')
  handle_cook k c shared built s = elim (Bool-cases (c.state == cooking)) [
    | inl e ↦
        let (recipe, known) = s.cooking_known e in
        (
          looked_up c shared,
          create-IsBuiltIn c.type c.size shared.registry built,
          handle_cooking k c shared recipe s e known built,
        )
    | inr e ↦ (shared, built, handle_idle k c shared s e)
  ]

  -- The handle once the whole answer has come in, where `cooks` came before.
  abbrev pub told : List ℕ → ThreadPool → KitchenHandle → List CookStatus → KitchenHandle
  told stock pool k cooks = record k {
    result_queue = [];
    status = record {
      id = k.status.id;
      load = pool.load % 256;
      capacity = pool.max_capacity % 256;
      cooks = cooks;
      stock = store_stock done_cb 0 stock k.status.stock;
    };
    pending_cooks = [];
  }

  drain-cooks :
      (stock : List ℕ) (pool : ThreadPool) (cs : List CookStatus) (k : KitchenHandle)
      (shared : Shared S)
      → IsBuiltIn shared.registry
      → All IsSendable cs
      → (shared' : Shared S) × IsBuiltIn shared'.registry
        × (drain done_cb (map cook_packet cs ++ (reply_packet stock pool ∷ [])) k shared
            ≡ got (told stock pool k (k.pending_cooks ++ cs)) shared')
  unfolding drain handle_packet handle_status_reply_packet reply_packet
  drain-cooks stock pool [] k shared built s = (
    shared,
    built,
    ap (λ cs. got (told stock pool k cs) shared) (sym (append-nil k.pending_cooks)),
  )
  drain-cooks stock pool (c ∷ cs) k shared built (s, ss) =
      let rest : List Packet = map cook_packet cs ++ (reply_packet stock pool ∷ []) in
      let (shared₁, built₁, e) = handle_cook (record k { result_queue = rest }) c shared built s in
      let (shared₂, built₂, f) =
        drain-cooks stock pool cs (push (record k { result_queue = rest }) c) shared₁ built₁ ss in
      (
        shared₂,
        built₂,
        ap (λ m. m >>= λ (j, t). drain done_cb rest j t) e
            ∙ f
            ∙ ap (λ l. got (told stock pool k l) shared₂)
                (append_assoc k.pending_cooks (c ∷ []) cs),
      )

  pub drain-answer-IsBuiltIn :
      (stock : List ℕ) (pool : ThreadPool) (k : KitchenHandle) (shared : Shared S)
      → IsBuiltIn shared.registry
      → All IsSendable (get_status pool)
      → k.pending_cooks ≡ []
      → (shared' : Shared S) × IsBuiltIn shared'.registry
        × (drain done_cb (answer stock pool) k shared
            ≡ got (told stock pool k (get_status pool)) shared')
  unfolding answer
  drain-answer-IsBuiltIn stock pool k shared built s none_before =
      let (shared', built', e) = drain-cooks stock pool (get_status pool) k shared built s in
      (
        shared',
        built',
        e ∙ ap (λ l. got (told stock pool k (l ++ get_status pool)) shared') none_before,
      )

  -- A kitchen's answer to a request for its status, received by the reception with no earlier
  -- answer half received, leaves in the handle exactly the statuses of the kitchen's cooks, their
  -- order and the names of their pizzas included, and the load and the capacity modulo 256,
  -- provided that each cook's status fits the bytes of a packet and that the
  -- reception's factory has only its own recipes.
  pub drain-answer :
      (stock : List ℕ) (pool : ThreadPool) (k : KitchenHandle) (shared : Shared S)
      → IsBuiltIn shared.registry
      → All IsSendable (get_status pool)
      → k.pending_cooks ≡ []
      → (shared' : Shared S) × (drain done_cb (answer stock pool) k shared
          ≡ got (told stock pool k (get_status pool)) shared')
  drain-answer stock pool k shared built s none_before =
      let (shared', built', e) = drain-answer-IsBuiltIn stock pool k shared built s none_before in
      (shared', e)
