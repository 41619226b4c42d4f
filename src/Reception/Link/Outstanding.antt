-- ===== src/Reception/Link/Outstanding.antt =====
-- The load that the reception keeps for a kitchen is the number of pizzas outstanding there.
use plazza.Prelude.{
  total-append, ℕ, ◌+◌, ◌*◌, ◌^◌, ◌≤◌, ◌<◌, ◌≡◌, refl, ap, false, List, [], ◌∷◌, ◌++◌, Option,
  arith, length, total,
}
use plazza.Pizza.{Pizza}
use plazza.Pizza.Recipe.{PizzaRecipe}
use plazza.Ipc.{Packet}
use plazza.Kitchen.ThreadPool.{
  Place, looping, holding, gathering, baking, announced, leaving, ended, aborted, Worker,
}
use plazza.Kitchen.ThreadPool.Refusal.{unannounced_at, unannounced, total-unannounced}
use plazza.Kitchen.KitchenWorker.Weights.{
  ordered_in, answered_in, of_recipe, in_hand_at, in_hand, in_work,
}
use plazza.Kitchen.KitchenWorker.{KitchenWorker, check_idle}
use plazza.Reception.{Shared, DoneCallback}
use plazza.Reception.Link.{Link, spawned, Reach, here, next}
use plazza.Reception.Link.Load.{ones}
use plazza.Reception.Link.Accounts.{IsAccounted, LinkStep-IsAccounted, spawned-IsAccounted}

-- Where the pizzas sent to a kitchen are: `waiting` is what the kitchen has not received of the
-- orders, `unread` what the reception has not received of the results.
pub record IsOutstanding {S : Type 0} (f : Pizza → ℕ) (l : Link S) : Type 0 where
  pub waiting : List Packet
  pub unread : List Packet
  pub sent_is : l.handle.order_queue ≡ l.taken ++ waiting
  pub told_is : l.worker.pool.results ≡ l.read ++ unread
  pub load :
      l.handle.load
      ≡ total (ordered_in ones) waiting
        + length l.worker.pool.queue
        + total unannounced l.worker.pool.workers
        + total (answered_in ones) unread
        + length l.lost
  pub kinds :
      total (ordered_in f) l.handle.order_queue
      ≡ total (ordered_in f) waiting
        + in_work f l.worker.pool
        + total (answered_in f) unread
        + total (answered_in f) l.read
        + total (of_recipe f) l.lost
  pub bounded : l.handle.load ≤ l.handle.capacity

total-length : (ps : List PizzaRecipe) → total (of_recipe ones) ps ≡ length ps
total-length [] = refl
total-length (p ∷ ps) = omega (arith, total-length ps)

in_hand-unannounced_at : (at : Place) → in_hand_at ones at ≡ unannounced_at at
in_hand-unannounced_at looping = refl
in_hand-unannounced_at (holding p) = refl
in_hand-unannounced_at (gathering p) = refl
in_hand-unannounced_at (baking p) = refl
in_hand-unannounced_at (announced p) = refl
in_hand-unannounced_at leaving = refl
in_hand-unannounced_at ended = refl
in_hand-unannounced_at aborted = refl

in_hand-unannounced : (ws : List Worker) → total (in_hand ones) ws ≡ total unannounced ws
in_hand-unannounced [] = refl
in_hand-unannounced (w ∷ ws) = omega (arith, in_hand-unannounced ws, in_hand-unannounced_at w.place)

module _ {S : Type 0} (f : Pizza → ℕ) where
  outstanding : {l : Link S} → IsAccounted f l → IsOutstanding f l
  outstanding {l} v = record {
    waiting = v.waiting;
    unread = v.unread;
    sent_is = v.sent_is;
    told_is = v.told_is;
    load = omega (
      arith,
      v.load,
      v.counted,
      ap (total (ordered_in ones)) v.sent_is,
      total-append (ordered_in ones) l.taken v.waiting,
      ap (total (answered_in ones)) v.told_is,
      total-append (answered_in ones) l.read v.unread,
      total-length l.worker.pool.queue,
      total-length l.lost,
      in_hand-unannounced l.worker.pool.workers,
    );
    kinds = omega (
      arith,
      v.kept,
      ap (total (ordered_in f)) v.sent_is,
      total-append (ordered_in f) l.taken v.waiting,
      ap (total (answered_in f)) v.told_is,
      total-append (answered_in f) l.read v.unread,
    );
    bounded = v.bounded;
  }

  module _ (done_cb : DoneCallback S) (send_error : Packet → Option (List ℕ)) (id n_cooks now : ℕ)
      (shared : Shared S) (fits : 2 * n_cooks < 2 ^ 64) where
    Reach-IsAccounted :
        {l : Link S} → Reach done_cb send_error (spawned id n_cooks now shared) l → IsAccounted f l
    Reach-IsAccounted here = spawned-IsAccounted f id n_cooks now shared fits
    Reach-IsAccounted (next r step) =
        LinkStep-IsAccounted f done_cb send_error step (Reach-IsAccounted r)

    -- Whatever the reception sends and reads, the kitchen receives and its threads do, in any
    -- order, the load that the reception keeps for a kitchen is the number of pizzas that it has sent
    -- there and not yet seen answered: those in the order queue, in the queue of the pool, in the
    -- hands of a cook, in the results not yet read, and dropped by a cook; the same holds of the
    -- weights of the pizzas, for any weight; and the load stays within the capacity, where twice
    -- the number of cooks fits a std::size_t.
    pub Reach-IsOutstanding :
        {l : Link S}
        → Reach done_cb send_error (spawned id n_cooks now shared) l
        → IsOutstanding f l
    Reach-IsOutstanding r = outstanding (Reach-IsAccounted r)

-- The kitchen has nothing in its queue or in the hands of its cooks, and the load that the reception
-- counts is the number of the pizzas that the kitchen has not received, that it has answered in
-- results not yet read, and that it has dropped.
pub record IsAbandoned {S : Type 0} (l : Link S) : Type 0 where
  pub nothing_queued : l.worker.pool.queue ≡ []
  pub nothing_in_hand : total unannounced l.worker.pool.workers ≡ 0
  pub waiting : List Packet
  pub unread : List Packet
  pub sent_is : l.handle.order_queue ≡ l.taken ++ waiting
  pub told_is : l.worker.pool.results ≡ l.read ++ unread
  pub load :
      l.handle.load
      ≡ total (ordered_in ones) waiting + total (answered_in ones) unread + length l.lost

length-zero : (ps : List PizzaRecipe) → length ps ≡ 0 → ps ≡ []
length-zero [] h = refl
length-zero (p ∷ ps) h = absurd (omega (arith, h))

module _ {S : Type 0} (done_cb : DoneCallback S) (send_error : Packet → Option (List ℕ))
    (id n_cooks now : ℕ) (shared : Shared S) (fits : 2 * n_cooks < 2 ^ 64) where
  check_idle-closes :
      (at : ℕ) (worker : KitchenWorker)
      → (check_idle send_error at worker).1 ≡ false
      → worker.pool.load ≡ 0
  unfolding check_idle
  check_idle-closes at worker h = ground arith

  -- Where twice the number of cooks fits a std::size_t: a kitchen that has been reached from its
  -- start and whose check of its idle time ends the loop has no pizza in the queue of its pool and
  -- none that a cook has in hand and has not announced; but the load that the reception still
  -- counts for it is the number of the pizzas sent that the kitchen has not received, of those
  -- answered in results that the reception has not read, and of those dropped by a cook.
  pub Reach-IsAbandoned :
      {l : Link S} (at : ℕ)
      → Reach done_cb send_error (spawned id n_cooks now shared) l
      → (check_idle send_error at l.worker).1 ≡ false
      → IsAbandoned l
  Reach-IsAbandoned {l} at r closes =
      let v : IsAccounted ones l =
        Reach-IsAccounted ones done_cb send_error id n_cooks now shared fits r in
      let o : IsOutstanding ones l = outstanding ones v in
      let idle = check_idle-closes at l.worker closes in
      let empty : length l.worker.pool.queue ≡ 0 = omega (arith, v.valid.counted, idle) in
      let free : total unannounced l.worker.pool.workers ≡ 0 =
        omega (arith, v.valid.counted, idle, total-unannounced l.worker.pool.workers) in
      record {
        nothing_queued = length-zero l.worker.pool.queue empty;
        nothing_in_hand = free;
        waiting = o.waiting;
        unread = o.unread;
        sent_is = o.sent_is;
        told_is = o.told_is;
        load = omega (arith, o.load, empty, free);
      }
