-- ===== src/Ipc/MessageQueue.antt =====
-- ipc/MessageQueue.cpp over the kernel's System V queues and files, which are a parameter: the
-- record `SysV` has the calls that the class makes. A call that fails is `none`, for -1 or a null
-- pointer; `queue_id` is `none` where `queueId_` is -1. Every message has type 1, and `msgrcv`
-- asks for any type.
pub mod Fifo
pub mod Refinement
pub mod Conservation
pub mod Opening
pub mod Ownership
pub mod Model
pub mod Examples
use plazza.Prelude.{
  ℕ, Bool, true, false, not, ◌&&◌, List, [], ◌∷◌, Option, none, some, codes, if◌then◌else◌,
}
use plazza.Errors.{Result, ok, thrown}
use plazza.Ipc.{Packet}

-- What `msgrcv` gives with IPC_NOWAIT.
pub data Received (K : Type 0) : Type 0 where
  got : Packet → K → Received K
  no_message : Received K  -- ENOMSG or EAGAIN
  failed : Received K

pub record SysV : Type 1 where
  pub K : Type 0
  pub fopen : List ℕ → K → Option K  -- for appending: the file is there then
  pub remove : List ℕ → K → K
  pub ftok : List ℕ → K → Option ℕ
  pub msgget : ℕ → K → Option ℕ  -- with no flags
  pub msgget_new : ℕ → K → Option (ℕ × K)  -- with IPC_CREAT and IPC_EXCL
  pub msgctl_remove : ℕ → K → K
  pub msgsnd : ℕ → Packet → K → Option K
  pub msgrcv : ℕ → K → Received K

pub record MessageQueue : Type 0 where
  pub queue_id : Option ℕ
  pub path : List ℕ
  pub owner : Bool

pub data Mode : Type 0 where
  create_mode : Mode
  open_mode : Mode

abbrev pub k_mq_open_failed : List ℕ
k_mq_open_failed = codes "Failed to open message queue"

abbrev pub k_mq_send_failed : List ℕ
k_mq_send_failed = codes "Failed to send on message queue"

abbrev pub k_mq_receive_failed : List ℕ
k_mq_receive_failed = codes "Failed to receive from message queue"

abbrev pub is_owner : Mode → Bool
is_owner create_mode = true
is_owner open_mode = false

module _ (os : SysV) where
  open os use {K, fopen, remove, ftok, msgget, msgget_new, msgctl_remove, msgsnd, msgrcv}

  -- The kernel after a call, and what the call gives.
  abbrev pub Done : Type 0 → Type 0
  Done A = K × Result A

  abbrev pub fopened : K → Option K → Done Unit
  fopened k none = (k, thrown k_mq_open_failed)
  fopened k (some k') = (k', ok tt)

  unfoldable pub create_anchor_file : List ℕ → K → Done (Unit {0})
  create_anchor_file path k = fopened k (fopen path k)

  abbrev pub key_or_thrown : Option ℕ → Result ℕ
  key_or_thrown none = thrown k_mq_open_failed
  key_or_thrown (some key) = ok key

  unfoldable pub resolve_key : List ℕ → K → Result ℕ
  resolve_key path k = key_or_thrown (ftok path k)

  abbrev pub remove_stale : Option ℕ → K → K
  remove_stale none k = k
  remove_stale (some stale) k = msgctl_remove stale k

  abbrev pub opened_new : K → Option (ℕ × K) → Done ℕ
  opened_new k none = (k, thrown k_mq_open_failed)
  opened_new k (some (id, k')) = (k', ok id)

  abbrev pub opened : K → Option ℕ → Done ℕ
  opened k none = (k, thrown k_mq_open_failed)
  opened k (some id) = (k, ok id)

  unfoldable pub open_queue : Bool → ℕ → K → Done ℕ
  open_queue true key k =
      let clean = remove_stale (msgget key k) k in opened_new clean (msgget_new key clean)
  open_queue false key k = opened k (msgget key k)

  -- The constructor, once the anchor is there and the key known.
  abbrev pub with_id : List ℕ → Bool → Done ℕ → Done MessageQueue
  with_id path owner (k, thrown e) = (k, thrown e)
  with_id path owner (k, ok id) =
      (k, ok (record { queue_id = some id; path = path; owner = owner }))

  abbrev pub with_key : List ℕ → Bool → K → Result ℕ → Done MessageQueue
  with_key path owner k (thrown e) = (k, thrown e)
  with_key path owner k (ok key) = with_id path owner (open_queue owner key k)

  abbrev pub with_anchor : List ℕ → Bool → Done (Unit {0}) → Done MessageQueue
  with_anchor path owner (k, thrown e) = (k, thrown e)
  with_anchor path owner (k, ok u) = with_key path owner k (resolve_key path k)

  unfoldable pub construct : List ℕ → Mode → K → Done MessageQueue
  unfolding create_anchor_file resolve_key open_queue
  construct path mode k =
      with_anchor path (is_owner mode)
        (if is_owner mode then create_anchor_file path k else (k, ok tt))

  -- `if (owner_ && queueId_ != -1)` and what it guards.
  abbrev pub release : Option ℕ → List ℕ → K → K
  release none path k = k
  release (some id) path k = remove path (msgctl_remove id k)

  unfoldable pub destroy : MessageQueue → K → K
  destroy q k = if q.owner then release q.queue_id q.path k else k

  -- What is left of an object that was moved from; the string that is left of its path is not
  -- specified, and nothing reads it.
  abbrev pub moved_from : MessageQueue
  moved_from = record { queue_id = none; path = []; owner = false }

  -- The new object, and what is left of the other.
  unfoldable pub move_construct : MessageQueue → MessageQueue × MessageQueue
  move_construct other = (other, moved_from)

  -- The assignment, from the object itself or from another one: this object, what is left of the
  -- other, and the kernel.
  unfoldable pub move_assign :
      Bool → MessageQueue → MessageQueue → K → MessageQueue × MessageQueue × K
  unfolding destroy
  move_assign same this other k =
      if same then (this, other, k) else (other, moved_from, destroy this k)

  -- A call with the id -1 fails.
  abbrev pub msgsnd_to : Option ℕ → Packet → K → Option K
  msgsnd_to none packet k = none
  msgsnd_to (some id) packet k = msgsnd id packet k

  abbrev pub sent : K → Option K → Done (Unit {0})
  sent k none = (k, thrown k_mq_send_failed)
  sent k (some k') = (k', ok tt)

  unfoldable pub send : Packet → MessageQueue → K → Done (Unit {0})
  send packet q k = sent k (msgsnd_to q.queue_id packet k)

  abbrev pub msgrcv_from : Option ℕ → K → Received K
  msgrcv_from none k = failed
  msgrcv_from (some id) k = msgrcv id k

  abbrev pub received : K → Received K → Done (Option Packet)
  received k (got packet k') = (k', ok (some packet))
  received k no_message = (k, ok none)
  received k failed = (k, thrown k_mq_receive_failed)

  -- With `blocking` false, which every call of the program leaves: the packet, or `none` where
  -- the call returns false.
  unfoldable pub receive : MessageQueue → K → Done (Option Packet)
  receive q k = received k (msgrcv_from q.queue_id k)
