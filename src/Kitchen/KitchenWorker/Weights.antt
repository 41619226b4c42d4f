-- ===== src/Kitchen/KitchenWorker/Weights.antt =====
-- The pizzas in a kitchen weighed, for any weight of pizzas: what the moves of its threads do.
use plazza.Prelude.{
  total-append, ℕ, ◌+◌, ◌<◌, ◌≡◌, refl, sym, ap, ◌∙◌, List, [], ◌∷◌, ◌++◌, some, arith, get_elem?,
  total, total-set, ◌==◌, if◌then◌else◌, append-nil,
}
use plazza.Pizza.{Pizza}
use plazza.Pizza.Recipe.{PizzaRecipe}
use plazza.Ipc.{ℤ, pos, negsuc, Packet, PackedPizza, byte_of_char, pack, unpack}
use plazza.Ipc.PizzaSerializer.{unpack-pack}
use plazza.Ipc.MessageType
use plazza.Kitchen.Cook.{Cook, done_packet}
use plazza.Kitchen.ThreadPool.{
  Place, looping, holding, gathering, baking, announced, leaving, ended, aborted, Worker,
  ThreadPool,
}
use plazza.Kitchen.ThreadPool.Steps.{
  Move, pop, leave, begin, gather, give_up, abort, announce, lose, finish, release, put,
}
use plazza.Kitchen.KitchenWorker.{KitchenWorker}
use plazza.Kitchen.KitchenWorker.Steps.{dropped}

module _ (f : Pizza → ℕ) where
  -- The weight of the pizza of a packet that carries one: in the order queue, and in the queue of
  -- results.
  abbrev pub ordered_in : Packet → ℕ
  ordered_in packet = if packet.type == MessageType.pizza then f (unpack packet.pizza) else 0

  abbrev pub answered_in : Packet → ℕ
  answered_in packet =
      if packet.type == MessageType.done
      then f (unpack packet.pizza)
      else if packet.type == MessageType.full
      then f (unpack packet.pizza)
      else 0

  -- The weight of the pizza that the Done packet of a recipe names.
  abbrev pub of_recipe : PizzaRecipe → ℕ
  of_recipe recipe = f (unpack (done_packet recipe).pizza)

  -- What a thread has in hand and has not announced.
  abbrev pub in_hand_at : Place → ℕ
  in_hand_at (holding p) = of_recipe p
  in_hand_at (gathering p) = of_recipe p
  in_hand_at (baking p) = of_recipe p
  in_hand_at looping = 0
  in_hand_at (announced p) = 0
  in_hand_at leaving = 0
  in_hand_at ended = 0
  in_hand_at aborted = 0

  abbrev pub in_hand : Worker → ℕ
  in_hand w = in_hand_at w.place

  -- Behind the queue of results, and within it.
  abbrev pub in_work : ThreadPool → ℕ
  in_work pool = total of_recipe pool.queue + total in_hand pool.workers

  abbrev pub answered : ThreadPool → ℕ
  answered pool = total answered_in pool.results

  abbrev pub held : KitchenWorker → ℕ
  held worker = answered worker.pool + in_work worker.pool

  -- A move of a thread.
  pub record Keeps (s t : ThreadPool) (at to : Place) (lost : List PizzaRecipe) : Type 0 where
    pub sent : List Packet
    pub balance :
        answered t + total of_recipe t.queue + in_hand_at to + total of_recipe lost
        ≡ answered s + total of_recipe s.queue + in_hand_at at
    pub same_workers : t.workers ≡ s.workers
    pub grows : t.results ≡ s.results ++ sent

  pub Move-Keeps :
      {s t : ThreadPool} {c c' : Cook} {at to : Place} (move : Move s c at t c' to)
      → Keeps s t at to (dropped move)
  Move-Keeps {s} (pop p rest q) = record {
    sent = [];
    balance = omega (arith, ap (total of_recipe) q);
    same_workers = refl;
    grows = sym (append-nil s.results);
  }
  Move-Keeps {s} (leave r q) = record {
    sent = [];
    balance = omega arith;
    same_workers = refl;
    grows = sym (append-nil s.results);
  }
  Move-Keeps {s} (begin p) = record {
    sent = [];
    balance = omega arith;
    same_workers = refl;
    grows = sym (append-nil s.results);
  }
  Move-Keeps {s} (gather p needed stock n w) = record {
    sent = [];
    balance = omega arith;
    same_workers = refl;
    grows = sym (append-nil s.results);
  }
  Move-Keeps {s} (give_up p needed n w) = record {
    sent = [];
    balance = omega arith;
    same_workers = refl;
    grows = sym (append-nil s.results);
  }
  Move-Keeps {s} (abort p e n) = record {
    sent = [];
    balance = omega arith;
    same_workers = refl;
    grows = sym (append-nil s.results);
  }
  Move-Keeps {s} (announce p) = record {
    sent = done_packet p ∷ [];
    balance = omega (arith, total-append answered_in s.results (done_packet p ∷ []));
    same_workers = refl;
    grows = refl;
  }
  Move-Keeps {s} (lose p) = record {
    sent = [];
    balance = omega arith;
    same_workers = refl;
    grows = sym (append-nil s.results);
  }
  Move-Keeps {s} (finish p) = record {
    sent = [];
    balance = omega arith;
    same_workers = refl;
    grows = sym (append-nil s.results);
  }
  Move-Keeps {s} release = record {
    sent = [];
    balance = omega arith;
    same_workers = refl;
    grows = sym (append-nil s.results);
  }

  pub work-keeps :
      (s t : ThreadPool) (i : ℕ) (w : Worker) (c : Cook) (to : Place)
      → get_elem? s.workers i ≡ some w
      → (move : Move s w.cook w.place t c to)
      → answered (put t i c to) + in_work (put t i c to) + total of_recipe (dropped move)
        ≡ answered s + in_work s
  work-keeps s t i w c to at move =
      let keeps : Keeps s t w.place to (dropped move) = Move-Keeps move in
      let new : Worker = record { cook = c; place = to } in
      let at' : get_elem? t.workers i ≡ some w =
        ap (λ ws. get_elem? ws i) keeps.same_workers ∙ at in
      omega (
        arith,
        keeps.balance,
        total-set in_hand t.workers i new at',
        ap (total in_hand) keeps.same_workers,
      )

byte_of_char-fits : (c : ℤ) → byte_of_char c < 256
unfolding byte_of_char
byte_of_char-fits (pos n) = omega arith
byte_of_char-fits (negsuc n) = omega arith

pub pack-unpack : (bytes : PackedPizza) → unpack (pack (unpack bytes)) ≡ unpack bytes
unfolding unpack
pack-unpack bytes =
    unpack-pack (unpack bytes) (byte_of_char-fits bytes.byte_0) (byte_of_char-fits bytes.byte_1)
