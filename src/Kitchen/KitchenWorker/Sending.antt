-- ===== src/Kitchen/KitchenWorker/Sending.antt =====
-- What the packets that the main loop sends add to the pizzas in a kitchen.
use plazza.Prelude.{
  total-append, ℕ, ◌+◌, ◌≡◌, refl, sym, ap, ◌∙◌, inl, inr, List, [], ◌∷◌, ◌++◌, Option, map, arith,
  append-nil, append_assoc, total, Option-cases, subst,
}
use plazza.Errors.{Result, ok, thrown}
use plazza.Pizza.{Pizza}
use plazza.Pizza.FactoryLaws.{IsBuiltIn}
use plazza.Ipc.{Packet}
use plazza.Kitchen.Cook.{CookStatus}
use plazza.Kitchen.ThreadPool.{ThreadPool, get_status}
use plazza.Kitchen.ThreadPool.Capacity.{IsValid, same-IsValid}
use plazza.Kitchen.KitchenWorker.{
  KitchenWorker, cook_packet, reply_packet, answer, send, and_then, send_all, send_answer,
}
use plazza.Kitchen.KitchenWorker.Weights.{answered_in, held}
use plazza.Reception.{Outcome, returned, threw}
use plazza.Reception.LoadBalancer.Outcomes.{OnReturn}

module _ (f : Pizza → ℕ) (send_error : Packet → Option (List ℕ)) where
  -- The kitchen has got `n` more.
  pub record Gains (n : ℕ) (s t : KitchenWorker) : Type 0 where
    pub weight : held f t ≡ held f s + n
    pub built : IsBuiltIn s.registry → IsBuiltIn t.registry
    pub valid : IsValid s.pool → IsValid t.pool
    pub same_threads : (t.pool.workers ≡ s.pool.workers) × (t.pool.running ≡ s.pool.running)
    pub sent : List Packet
    pub grows : t.pool.results ≡ s.pool.results ++ sent

  pub stays : (s : KitchenWorker) → Gains 0 s s
  stays s = record {
    weight = omega arith;
    built = λ h. h;
    valid = λ v. v;
    same_threads = (refl, refl);
    sent = [];
    grows = sym (append-nil s.pool.results);
  }

  pub send-Gains :
      (packet : Packet) (s : KitchenWorker)
      → OnReturn (Gains (answered_in f packet) s) (send send_error packet s)
  unfolding send
  send-Gains packet s = elim (Option-cases (send_error packet)) [
    | inl e ↦
        rw (e, OnReturn)
          (record {
            weight = omega (arith, total-append (answered_in f) s.pool.results (packet ∷ []));
            built = λ h. h;
            valid = same-IsValid refl refl refl refl;
            same_threads = (refl, refl);
            sent = packet ∷ [];
            grows = refl;
          })
    | inr (message, e) ↦ rw (e, OnReturn) tt
  ]

  and_then-Gains :
      (n m : ℕ) (s : KitchenWorker) (first : Outcome KitchenWorker)
      (next : KitchenWorker → Outcome KitchenWorker)
      → OnReturn (Gains n s) first
      → ((t : KitchenWorker) → OnReturn (Gains m t) (next t))
      → OnReturn (Gains (n + m) s) (and_then send_error first next)
  and_then-Gains n m s (threw e t) next h k = tt
  and_then-Gains n m s (returned t) next h k = later (next t) (k t)
    where
      later : (o : Outcome KitchenWorker) → OnReturn (Gains m t) o → OnReturn (Gains (n + m) s) o
      later (threw e u) g = tt
      later (returned u) g = record {
        weight = omega (arith, h.weight, g.weight);
        built = λ b. g.built (h.built b);
        valid = λ v. g.valid (h.valid v);
        same_threads = (g.same_threads.0 ∙ h.same_threads.0, g.same_threads.1 ∙ h.same_threads.1);
        sent = h.sent ++ g.sent;
        grows = g.grows ∙ ap (λ r. r ++ g.sent) h.grows ∙ append_assoc s.pool.results h.sent g.sent;
      }

  send_all-Gains :
      (packets : List Packet) (s : KitchenWorker)
      → OnReturn (Gains (total (answered_in f) packets) s) (send_all send_error packets s)
  unfolding send_all
  send_all-Gains [] s = stays s
  send_all-Gains (packet ∷ packets) s =
      and_then-Gains (answered_in f packet) (total (answered_in f) packets) s
        (send send_error packet s) (send_all send_error packets) (send-Gains packet s)
        (send_all-Gains packets)

  answer-no_pizza :
      (stock : List ℕ) (pool : ThreadPool) (cooks : List CookStatus)
      → total (answered_in f) (map cook_packet cooks ++ (reply_packet stock pool ∷ [])) ≡ 0
  unfolding cook_packet reply_packet
  answer-no_pizza stock pool [] = refl
  answer-no_pizza stock pool (c ∷ cooks) = omega (arith, answer-no_pizza stock pool cooks)

  pub send_answer-Gains :
      (s : KitchenWorker) (stock : Result (List ℕ))
      → OnReturn (Gains 0 s) (send_answer send_error stock s)
  unfolding answer
  send_answer-Gains s (thrown e) = tt
  send_answer-Gains s (ok stock) =
      subst (λ n. OnReturn (Gains n s) (send_all send_error (answer stock s.pool) s))
        (answer-no_pizza stock s.pool (get_status s.pool)) (send_all-Gains (answer stock s.pool) s)
