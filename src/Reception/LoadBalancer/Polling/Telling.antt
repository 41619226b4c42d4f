-- ===== src/Reception/LoadBalancer/Polling/Telling.antt =====
-- What the user is told of the kitchens where every kitchen answers.
use plazza.Prelude.{ℕ, zero, suc, ◌%◌, ◌≡◌, refl, List, [], ◌∷◌, map, none, some, All}
use plazza.Errors.{ok}
use plazza.Ipc.{Packet}
use plazza.Pizza.FactoryLaws.{IsBuiltIn}
use plazza.Kitchen.Ingredient.{Stock, k_all_ingredients}
use plazza.Kitchen.ThreadPool
use plazza.Kitchen.ThreadPool.{ThreadPool}
use plazza.Kitchen.KitchenWorker.{answer, quantities}
use plazza.Kitchen.KitchenWorker.Answers.{IsSendable}
use plazza.Reception.{KitchenHandle, KitchenStatus, returned, DoneCallback}
use plazza.Reception.LoadBalancer.{LoadBalancer, Os}
use plazza.Reception.LoadBalancer.Validity.{IsValid}
use plazza.Reception.LoadBalancer.Polling.{get_status}
use plazza.Reception.LoadBalancer.Polling.Stocks.{IsShown, stock-IsShown}
use plazza.Reception.LoadBalancer.Polling.Replies.{IsIdle, status_of, get_status-answered}

module _ {S : Type 0} (done_cb : DoneCallback S) (os : Os)
    (sends : (k : KitchenHandle) (p : Packet) → os.send_error k p ≡ none) (stock_of : ℕ → List ℕ)
    (pool_of : ℕ → ThreadPool)
    (fits : (id : ℕ) → All IsSendable (ThreadPool.get_status (pool_of id))) where
  -- What the status that the user gets says of a kitchen with the stock `kitchen_stock`.
  pub record Tells (kitchen_stock : ℕ → Stock) (k : KitchenHandle) (status : KitchenStatus)
      : Type 0 where
    pub names : status.id ≡ k.status.id
    pub load : status.load ≡ (pool_of k.id).load % 256
    pub capacity : status.capacity ≡ (pool_of k.id).max_capacity % 256
    pub cooks : status.cooks ≡ ThreadPool.get_status (pool_of k.id)
    pub stock : All (IsShown (kitchen_stock k.id) status.stock) k_all_ingredients

  -- One status for each kitchen, in the same order.
  abbrev pub TellsAll : (ℕ → Stock) → List KitchenHandle → List KitchenStatus → Type 0
  TellsAll stocks [] [] = Unit
  TellsAll stocks [] (status ∷ told_of) = ⊥
  TellsAll stocks (k ∷ ks) [] = ⊥
  TellsAll stocks (k ∷ ks) (status ∷ told_of) = Tells stocks k status × TellsAll stocks ks told_of

  module _ (kitchen_stock : ℕ → Stock)
      (listed : (id : ℕ) → quantities k_all_ingredients (kitchen_stock id) ≡ ok (stock_of id)) where
    status_of-TellsAll :
        (ks : List KitchenHandle)
        → TellsAll kitchen_stock ks (map (status_of done_cb os sends stock_of pool_of fits) ks)
    status_of-TellsAll [] = tt
    status_of-TellsAll (k ∷ ks) = (
      record {
        names = refl;
        load = refl;
        capacity = refl;
        cooks = refl;
        stock =
            stock-IsShown done_cb (kitchen_stock k.id) k.status.stock (stock_of k.id) (listed k.id);
      },
      status_of-TellsAll ks,
    )

    -- In a reception that keeps its invariant, where every kitchen is alive and has nothing left in
    -- its queue, every packet can be sent, each kitchen answers in the first round with its cooks,
    -- its load, its capacity and a stock that has an entry for each ingredient, the status of each
    -- cook fits the bytes of its packet (so that its number is below 256) and names a pizza of the
    -- factory exactly where it cooks, and the reception's factory has only its own recipes:
    -- getStatus returns, with one status for each kitchen in the order of the handles, which has
    -- the number of the handle's status, the statuses of the kitchen's cooks in order, its load and
    -- its capacity modulo 256, and for each of the nine ingredients the quantity that the kitchen
    -- has, modulo 2 ^ 32.
    pub get_status-tells :
        (fuel : ℕ) (arrivals : ℕ → ℕ → List Packet) (lb : LoadBalancer S)
        → arrivals zero ≡ (λ id. answer (stock_of id) (pool_of id))
        → IsValid lb
        → All IsIdle lb.kitchens
        → IsBuiltIn lb.shared.registry
        → (lb' : LoadBalancer S) × (told_of : List KitchenStatus) × (get_status done_cb os
              (suc fuel)
              arrivals
              lb
            ≡ some (returned (lb', told_of)))
          × TellsAll kitchen_stock lb.kitchens told_of
    get_status-tells fuel arrivals lb first v idle built =
        let (lb', e) =
          get_status-answered done_cb os sends stock_of pool_of fits fuel arrivals lb first v idle
            built in
        (
          lb',
          map (status_of done_cb os sends stock_of pool_of fits) lb.kitchens,
          e,
          status_of-TellsAll lb.kitchens,
        )
