-- ===== src/Ipc/MessageQueue/Opening.antt =====
-- What the constructor returns, and the queue that it makes.
use plazza.Prelude.{ℕ, ◌≡◌, refl, ◌∙◌, Bool, true, false, List, [], Option, none, some}
use plazza.Errors.{ok}
use plazza.Ipc.MessageQueue.{
  SysV, MessageQueue, create_mode, open_mode, create_anchor_file, resolve_key, remove_stale,
  open_queue, construct,
}
use plazza.Ipc.MessageQueue.Fifo.{Delivers}

-- What the manual promises of the calls that open a queue. `has_room` says that the limits on the
-- number of queues are not reached.
pub record Opens (os : SysV) (law : Delivers os) : Type 0 where
  pub has_room : os.K → Bool
  pub fopen_named :
      (path : List ℕ) (k k' : os.K)
      → os.fopen path k ≡ some k'
      → (key : ℕ) × (os.ftok path k' ≡ some key)
  pub remove_unfound :
      (key id : ℕ) (k : os.K)
      → os.msgget key k ≡ some id
      → os.msgget key (os.msgctl_remove id k) ≡ none
  pub remove_room :
      (id : ℕ) (k : os.K) → has_room k ≡ true → has_room (os.msgctl_remove id k) ≡ true
  pub msgget_new_made :
      (key : ℕ) (k : os.K)
      → os.msgget key k ≡ none
      → has_room k ≡ true
      → (id : ℕ) × (k' : os.K) × (os.msgget_new key k ≡ some (id, k'))
  pub msgget_new_empty :
      (key id : ℕ) (k k' : os.K)
      → os.msgget_new key k ≡ some (id, k')
      → law.contents id k' ≡ some []
  pub msgget_new_found :
      (key id : ℕ) (k k' : os.K) → os.msgget_new key k ≡ some (id, k') → os.msgget key k' ≡ some id
  pub ftok_remove :
      (path : List ℕ) (id : ℕ) (k : os.K) → os.ftok path (os.msgctl_remove id k) ≡ os.ftok path k
  pub ftok_new :
      (path : List ℕ) (key id : ℕ) (k k' : os.K)
      → os.msgget_new key k ≡ some (id, k')
      → os.ftok path k' ≡ os.ftok path k

module _ (os : SysV) (law : Delivers os) (opens : Opens os law) where
  -- The kernel once a stale queue is gone.
  abbrev pub clean : ℕ → os.K → os.K
  clean key k = remove_stale os (os.msgget key k) k

  clean-unfound :
      (key : ℕ) (k : os.K) (at : Option ℕ)
      → os.msgget key k ≡ at
      → os.msgget key (remove_stale os at k) ≡ none
  clean-unfound key k none e = e
  clean-unfound key k (some id) e = opens.remove_unfound key id k e

  clean-room :
      (k : os.K) (at : Option ℕ)
      → opens.has_room k ≡ true
      → opens.has_room (remove_stale os at k) ≡ true
  clean-room k none h = h
  clean-room k (some id) h = opens.remove_room id k h

  clean-ftok :
      (path : List ℕ) (k : os.K) (at : Option ℕ)
      → os.ftok path (remove_stale os at k) ≡ os.ftok path k
  clean-ftok path k none = refl
  clean-ftok path k (some id) = opens.ftok_remove path id k

  abbrev pub creator : List ℕ → ℕ → MessageQueue
  creator path id = record { queue_id = some id; path = path; owner = true }

  abbrev pub opener : List ℕ → ℕ → MessageQueue
  opener path id = record { queue_id = some id; path = path; owner = false }

  construct-created :
      (path : List ℕ) (key id : ℕ) (k k₁ k₂ : os.K)
      → os.fopen path k ≡ some k₁
      → os.ftok path k₁ ≡ some key
      → os.msgget_new key (clean key k₁) ≡ some (id, k₂)
      → construct os path create_mode k ≡ (k₂, ok (creator path id))
  unfolding construct create_anchor_file resolve_key open_queue
  construct-created path key id k k₁ k₂ f t n = rw (f, t, n) refl

  pub construct-opened :
      (path : List ℕ) (key id : ℕ) (k : os.K)
      → os.ftok path k ≡ some key
      → os.msgget key k ≡ some id
      → construct os path open_mode k ≡ (k, ok (opener path id))
  unfolding construct resolve_key open_queue
  construct-opened path key id k t g = rw (t, g) refl

  -- The file of the path has the key, and the queue of the key is there and empty.
  pub record IsMade (path : List ℕ) (key id : ℕ) (k : os.K) : Type 0 where
    pub has_key : os.ftok path k ≡ some key
    pub is_found : os.msgget key k ≡ some id
    pub is_empty : law.contents id k ≡ some []

  -- The constructor that creates, step by step.
  pub record Creates (path : List ℕ) (k k₁ : os.K) : Type 0 where
    pub key : ℕ
    pub id : ℕ
    pub k' : os.K
    pub has_key : os.ftok path k₁ ≡ some key
    pub makes : os.msgget_new key (clean key k₁) ≡ some (id, k')
    pub creates : construct os path create_mode k ≡ (k', ok (creator path id))
    pub made : IsMade path key id k'

  -- Where the anchor file can be opened and a queue can be made, the constructor that creates
  -- returns, also where a queue was left from an earlier run.
  pub construct-Creates :
      (path : List ℕ) (k k₁ : os.K)
      → os.fopen path k ≡ some k₁
      → opens.has_room k₁ ≡ true
      → Creates path k k₁
  construct-Creates path k k₁ f room =
      let (key, t) = opens.fopen_named path k k₁ f in
      let at = os.msgget key k₁ in
      let cleaned = clean key k₁ in
      let (id, k₂, n) =
        opens.msgget_new_made key cleaned (clean-unfound key k₁ at refl) (clean-room k₁ at room) in
      record {
        key = key;
        id = id;
        k' = k₂;
        has_key = t;
        makes = n;
        creates = construct-created path key id k k₁ k₂ f t n;
        made = record {
          has_key = opens.ftok_new path key id cleaned k₂ n ∙ clean-ftok path k₁ at ∙ t;
          is_found = opens.msgget_new_found key id cleaned k₂ n;
          is_empty = opens.msgget_new_empty key id cleaned k₂ n;
        };
      }
