-- ===== src/Reception/Link/Accounts.antt =====
-- Each step of a kitchen and of its handle keeps the account of the pizzas sent.
use plazza.Prelude.{
  total-append, ℕ, ◌+◌, ◌*◌, ◌^◌, ◌≤◌, ◌<◌, ◌≡◌, refl, sym, ap, ◌∙◌, List, [], ◌∷◌, ◌++◌,
  append-nil, append_assoc, Option, none, arith, total, subst, inl,
}
use plazza.Pizza.{Pizza}
use plazza.Pizza.Recipe.{PizzaRecipe}
use plazza.Pizza.FactoryLaws.{IsBuiltIn}
use plazza.Ipc.{Packet}
use plazza.Kitchen.IngredientStock.{new_stock, initial_stock}
use plazza.Kitchen.ThreadPool.Capacity.{IsValid, start-IsValid}
use plazza.Kitchen.KitchenWorker.{KitchenWorker}
use plazza.Kitchen.KitchenWorker.Steps.{Step, new_worker}
use plazza.Kitchen.KitchenWorker.Weights.{ordered_in, answered_in, of_recipe, held}
use plazza.Kitchen.KitchenWorker.Conservation.{Balances, Step-Balances, new_worker-empty}
use plazza.Reception.{KitchenHandle, Shared, DoneCallback}
use plazza.Reception.LoadBalancer.{pizza_packet}
use plazza.Reception.LoadBalancer.Validity.{has_room-lt}
use plazza.Reception.Link.{Link, spawned, LinkStep, sends, asks, closes, reads, takes, cooks}
use plazza.Reception.Link.Load.{ones, Drops, handle_packet-Drops}

module _ {S : Type 0} (f : Pizza → ℕ) where
  -- The pizzas of weight `f` that the kitchen has got are all accounted for.
  abbrev pub IsKept : Link S → Type 0
  IsKept l = held f l.worker + total (of_recipe f) l.lost ≡ total (ordered_in f) l.taken

-- The queues, split at what has been received; the weights, for `f` and in number; and the load.
pub record IsAccounted {S : Type 0} (f : Pizza → ℕ) (l : Link S) : Type 0 where
  pub waiting : List Packet
  pub unread : List Packet
  pub sent_is : l.handle.order_queue ≡ l.taken ++ waiting
  pub told_is : l.worker.pool.results ≡ l.read ++ unread
  pub kept : IsKept f l
  pub counted : IsKept ones l
  pub built : IsBuiltIn l.worker.registry
  pub valid : IsValid l.worker.pool
  pub load :
      l.handle.load + total (answered_in ones) l.read ≡ total (ordered_in ones) l.handle.order_queue
  pub bounded : l.handle.load ≤ l.handle.capacity

module _ {S : Type 0} (f : Pizza → ℕ) where
  -- The reception puts a packet into the order queue.
  IsAccounted-order :
      (packet : Packet) (l : Link S) (k : KitchenHandle)
      → k.order_queue ≡ l.handle.order_queue ++ (packet ∷ [])
      → k.load ≡ l.handle.load + ordered_in ones packet
      → k.load ≤ k.capacity
      → IsAccounted f l
      → IsAccounted f (record l { handle = k })
  IsAccounted-order packet l k queue load bounded v = record {
    waiting = v.waiting ++ (packet ∷ []);
    unread = v.unread;
    sent_is =
        queue
        ∙ ap (λ q. q ++ (packet ∷ [])) v.sent_is
        ∙ append_assoc l.taken v.waiting (packet ∷ []);
    told_is = v.told_is;
    kept = v.kept;
    counted = v.counted;
    built = v.built;
    valid = v.valid;
    load = omega (
      arith,
      load,
      v.load,
      ap (total (ordered_in ones)) queue,
      total-append (ordered_in ones) l.handle.order_queue (packet ∷ []),
    );
    bounded = bounded;
  }

  -- The kitchen steps.
  IsAccounted-kitchen :
      (send_error : Packet → Option (List ℕ)) (l : Link S) (received waiting : List Packet)
      (more : List PizzaRecipe) (t : KitchenWorker)
      → l.handle.order_queue ≡ l.taken ++ (received ++ waiting)
      → Step send_error l.worker received more t
      → IsAccounted f l
      → IsAccounted f (record l { worker = t; taken = l.taken ++ received; lost = l.lost ++ more })
  IsAccounted-kitchen send_error l received waiting more t queue step v =
      let heavy : Balances f send_error l.worker received more t =
        Step-Balances f send_error step v.built in
      let one : Balances ones send_error l.worker received more t =
        Step-Balances ones send_error step v.built in
      record {
        waiting = waiting;
        unread = v.unread ++ one.sent;
        sent_is = queue ∙ sym (append_assoc l.taken received waiting);
        told_is =
            one.grows ∙ ap (λ r. r ++ one.sent) v.told_is ∙ append_assoc l.read v.unread one.sent;
        kept = omega (
          arith,
          v.kept,
          heavy.weight,
          total-append (of_recipe f) l.lost more,
          total-append (ordered_in f) l.taken received,
        );
        counted = omega (
          arith,
          v.counted,
          one.weight,
          total-append (of_recipe ones) l.lost more,
          total-append (ordered_in ones) l.taken received,
        );
        built = one.built;
        valid = one.valid v.valid;
        load = v.load;
        bounded = v.bounded;
      }

  -- The reception reads a packet: the load has one to take.
  IsAccounted-reads :
      (done_cb : DoneCallback S) (l : Link S) (packet : Packet) (unread : List Packet)
      (k : KitchenHandle) (shared : Shared S)
      → l.worker.pool.results ≡ l.read ++ (packet ∷ unread)
      → Drops (answered_in ones packet) l.handle k
      → IsAccounted f l
      → IsAccounted f (record l { handle = k; shared = shared; read = l.read ++ (packet ∷ []) })
  IsAccounted-reads done_cb l packet unread k shared results drops v =
      let one_read = total-append (answered_in ones) l.read (packet ∷ []) in
      let room : answered_in ones packet ≤ l.handle.load = omega (
        arith,
        v.load,
        v.counted,
        ap (total (ordered_in ones)) v.sent_is,
        total-append (ordered_in ones) l.taken v.waiting,
        ap (total (answered_in ones)) results,
        total-append (answered_in ones) l.read (packet ∷ unread),
      ) in
      record {
        waiting = v.waiting;
        unread = unread;
        sent_is = drops.same_orders ∙ v.sent_is;
        told_is = results ∙ sym (append_assoc l.read (packet ∷ []) unread);
        kept = v.kept;
        counted = v.counted;
        built = v.built;
        valid = v.valid;
        load = omega (
          arith,
          v.load,
          drops.load room,
          one_read,
          ap (total (ordered_in ones)) drops.same_orders,
        );
        bounded = omega (arith, v.bounded, drops.load room, drops.same_capacity);
      }

  pub LinkStep-IsAccounted :
      (done_cb : DoneCallback S) (send_error : Packet → Option (List ℕ)) {l m : Link S}
      → LinkStep done_cb send_error l m
      → IsAccounted f l
      → IsAccounted f m
  LinkStep-IsAccounted done_cb send_error {l} (sends order room) v =
      IsAccounted-order (pizza_packet order) l _ refl refl
        (omega (arith, has_room-lt l.handle room)) v
  LinkStep-IsAccounted done_cb send_error {l} asks v =
      IsAccounted-order _ l _ refl (omega arith) v.bounded v
  LinkStep-IsAccounted done_cb send_error {l} closes v =
      IsAccounted-order _ l _ refl (omega arith) v.bounded v
  LinkStep-IsAccounted done_cb send_error {l} (reads packet unread queued k shared results e) v =
      IsAccounted-reads done_cb l packet unread k shared results
        (subst (λ a. Drops (answered_in ones packet) l.handle a.0) e
          (handle_packet-Drops done_cb l.handle queued packet l.shared))
        v
  LinkStep-IsAccounted done_cb send_error {l} (takes packet waiting t queue step) v =
      subst
        (λ lost.
          IsAccounted f (record l { worker = t; taken = l.taken ++ (packet ∷ []); lost = lost }))
        (append-nil l.lost)
        (IsAccounted-kitchen send_error l (packet ∷ []) waiting [] t queue step v)
  LinkStep-IsAccounted done_cb send_error {l} (cooks more t step) v =
      subst (λ taken. IsAccounted f (record l { worker = t; taken = taken; lost = l.lost ++ more }))
        (append-nil l.taken) (IsAccounted-kitchen send_error l [] v.waiting more t v.sent_is step v)

  pub spawned-IsAccounted :
      (id n_cooks now : ℕ) (shared : Shared S)
      → 2 * n_cooks < 2 ^ 64
      → IsAccounted f (spawned id n_cooks now shared)
  unfolding new_worker
  spawned-IsAccounted id n_cooks now shared fits = record {
    waiting = [];
    unread = [];
    sent_is = refl;
    told_is = refl;
    kept = omega (arith, new_worker-empty f (λ p. none) n_cooks now);
    counted = omega (arith, new_worker-empty ones (λ p. none) n_cooks now);
    built = inl refl;
    valid = start-IsValid n_cooks (new_stock initial_stock) fits;
    load = omega arith;
    bounded = omega arith;
  }
