-- ===== src/Reception/LoadBalancer/Spawning.antt =====
-- The queues of a new kitchen in spawnKitchen: those of the reception, and those that the child
-- opens, over the kernel of Ipc/MessageQueue.antt.
pub mod Examples
use plazza.Prelude.{ℕ, ◌≡◌, ◌≢◌, refl, sym, ap, ◌∙◌, true, List, [], ◌∷◌, Option, none, some}
use plazza.Errors.{Result, ok, thrown}
use plazza.Ipc.MessageQueue.{
  SysV, MessageQueue, Done, create_mode, open_mode, remove_stale, construct, destroy,
}
use plazza.Ipc.MessageQueue.Fifo.{Delivers}
use plazza.Ipc.MessageQueue.Opening.{
  Opens, clean, creator, opener, construct-opened, IsMade, construct-Creates,
}
use plazza.Reception.LoadBalancer.{order_path, result_path}

module _ (os : SysV) where
  abbrev pub Ends : Type 0
  Ends = MessageQueue × MessageQueue

  -- The first queue goes with the handle where the second cannot be made.
  abbrev pub after_results : MessageQueue → Done os MessageQueue → Done os Ends
  after_results orders (k, thrown e) = (destroy os orders k, thrown e)
  after_results orders (k, ok results) = (k, ok (orders, results))

  abbrev pub after_orders : (os.K → Done os MessageQueue) → Done os MessageQueue → Done os Ends
  after_orders rest (k, thrown e) = (k, thrown e)
  after_orders rest (k, ok orders) = after_results orders (rest k)

  -- The order queue and the result queue of a kitchen.
  unfoldable pub create_queues : ℕ → os.K → Done os Ends
  unfolding construct order_path result_path
  create_queues kitchen_id k =
      after_orders (construct os (result_path kitchen_id) create_mode)
        (construct os (order_path kitchen_id) create_mode k)

  -- The same, in the child.
  unfoldable pub open_queues : ℕ → os.K → Done os Ends
  unfolding construct order_path result_path
  open_queues kitchen_id k =
      after_orders (construct os (result_path kitchen_id) open_mode)
        (construct os (order_path kitchen_id) open_mode k)

  -- What the manual promises of the other files and queues when a file or a queue is made or
  -- removed.
  pub record Spares (law : Delivers os) : Type 0 where
    pub fopen_found :
        (path : List ℕ) (key : ℕ) (k k' : os.K)
        → os.fopen path k ≡ some k'
        → os.msgget key k' ≡ os.msgget key k
    pub fopen_contents :
        (path : List ℕ) (id : ℕ) (k k' : os.K)
        → os.fopen path k ≡ some k'
        → law.contents id k' ≡ law.contents id k
    pub fopen_ftok :
        (path other : List ℕ) (key : ℕ) (k k' : os.K)
        → os.fopen path k ≡ some k'
        → os.ftok other k ≡ some key
        → os.ftok other k' ≡ some key
    pub one_key :
        (key other id : ℕ) (k : os.K)
        → os.msgget key k ≡ some id
        → os.msgget other k ≡ some id
        → key ≡ other
    pub new_found :
        (key other id : ℕ) (k k' : os.K)
        → os.msgget_new key k ≡ some (id, k')
        → key ≢ other
        → os.msgget other k' ≡ os.msgget other k
    pub new_contents :
        (key id other : ℕ) (k k' : os.K)
        → os.msgget_new key k ≡ some (id, k')
        → id ≢ other
        → law.contents other k' ≡ law.contents other k
    pub remove_found :
        (id other key : ℕ) (k : os.K)
        → id ≢ other
        → os.msgget key k ≡ some other
        → os.msgget key (os.msgctl_remove id k) ≡ some other
    pub remove_contents :
        (id other : ℕ) (k : os.K)
        → id ≢ other
        → law.contents other (os.msgctl_remove id k) ≡ law.contents other k

module _ (os : SysV) (law : Delivers os) (opens : Opens os law) (spares : Spares os law) where
  -- A queue that is made stays so while another is made.
  fopen-IsMade :
      (path other : List ℕ) (key id : ℕ) (k k₁ : os.K)
      → os.fopen other k ≡ some k₁
      → IsMade os law opens path key id k
      → IsMade os law opens path key id k₁
  fopen-IsMade path other key id k k₁ f m = record {
    has_key = spares.fopen_ftok other path key k k₁ f m.has_key;
    is_found = spares.fopen_found other key k k₁ f ∙ m.is_found;
    is_empty = spares.fopen_contents other id k k₁ f ∙ m.is_empty;
  }

  clean-IsMade :
      (path : List ℕ) (key id other : ℕ) (k : os.K) (at : Option ℕ)
      → other ≢ key
      → os.msgget other k ≡ at
      → IsMade os law opens path key id k
      → IsMade os law opens path key id (remove_stale os at k)
  clean-IsMade path key id other k none differs e m = m
  clean-IsMade path key id other k (some stale) differs e m =
      let not_it : stale ≢ id =
        λ same. differs (spares.one_key other key id k (e ∙ ap some same) m.is_found) in
      record {
        has_key = opens.ftok_remove path stale k ∙ m.has_key;
        is_found = spares.remove_found stale id key k not_it m.is_found;
        is_empty = spares.remove_contents stale id k not_it ∙ m.is_empty;
      }

  new-IsMade :
      (path : List ℕ) (key id other j : ℕ) (k k' : os.K)
      → other ≢ key
      → os.msgget_new other k ≡ some (j, k')
      → IsMade os law opens path key id k
      → IsMade os law opens path key id k' × (id ≢ j)
  new-IsMade path key id other j k k' differs n m =
      let found : os.msgget key k' ≡ some id =
        spares.new_found other key j k k' n differs ∙ m.is_found in
      let not_it : j ≢ id = λ same. differs (
        spares.one_key other key id k' (opens.msgget_new_found other j k k' n ∙ ap some same)
          found) in
      (
        record {
          has_key = opens.ftok_new path other j k k' n ∙ m.has_key;
          is_found = found;
          is_empty = spares.new_contents other j id k k' n not_it ∙ m.is_empty;
        },
        λ same. not_it (sym same),
      )

  abbrev pub both : (List ℕ → ℕ → MessageQueue) → ℕ → ℕ → ℕ → MessageQueue × MessageQueue
  both object kitchen_id i j = (object (order_path kitchen_id) i, object (result_path kitchen_id) j)

  -- Where the anchor files can be opened, queues can be made, and the files of the two paths have
  -- different keys, the reception gets the two queues of a kitchen, different and empty, whatever
  -- an earlier run left, and the child that opens them next gets the same two, each for the same
  -- purpose.
  pub create_queues-meet :
      (kitchen_id : ℕ) (k : os.K)
      → ((path : List ℕ) (l : os.K) → (l' : os.K) × (os.fopen path l ≡ some l'))
      → ((l : os.K) → opens.has_room l ≡ true)
      → ((l : os.K) (key : ℕ)
          → os.ftok (order_path kitchen_id) l ≡ some key
          → os.ftok (result_path kitchen_id) l ≢ some key)
      → (i : ℕ) × (j : ℕ) × (k' : os.K) × (create_queues os kitchen_id k
          ≡ (k', ok (both (creator os law opens) kitchen_id i j)))
        × (open_queues os kitchen_id k' ≡ (k', ok (both (opener os law opens) kitchen_id i j)))
        × (i ≢ j)
        × (law.contents i k' ≡ some [])
        × (law.contents j k' ≡ some [])
  unfolding create_queues open_queues
  create_queues-meet kitchen_id k files room apart =
      let orders = order_path kitchen_id in
      let results = result_path kitchen_id in
      let (k₁, f₁) = files orders k in
      let o = construct-Creates os law opens orders k k₁ f₁ (room k₁) in
      let (k₂, f₂) = files results o.k' in
      let r = construct-Creates os law opens results o.k' k₂ f₂ (room k₂) in
      let opened = fopen-IsMade orders results o.key o.id o.k' k₂ f₂ o.made in
      let differs : r.key ≢ o.key =
        λ same. apart k₂ o.key opened.has_key (r.has_key ∙ ap some same) in
      let cleaned =
        clean-IsMade orders o.key o.id r.key k₂ (os.msgget r.key k₂) differs refl opened in
      let (kept, distinct) =
        new-IsMade orders o.key o.id r.key r.id (clean os law opens r.key k₂) r.k' differs r.makes
          cleaned in
      (
        o.id,
        r.id,
        r.k',
        ap (after_orders os (construct os results create_mode)) o.creates
            ∙ ap (after_results os (creator os law opens orders o.id)) r.creates,
        ap (after_orders os (construct os results open_mode))
              (construct-opened os law opens orders o.key o.id r.k' kept.has_key kept.is_found)
            ∙ ap (after_results os (opener os law opens orders o.id)) (
                construct-opened os law opens results r.key r.id r.k' r.made.has_key
                  r.made.is_found),
        distinct,
        kept.is_empty,
        r.made.is_empty,
      )
