-- ===== src/Ipc/MessageQueue/Fifo.antt =====
-- A message queue is a first-in first-out queue of packets.
use plazza.Prelude.{ℕ, ◌≡◌, ◌≢◌, List, [], ◌∷◌, ◌++◌, Option, none, some}
use plazza.Errors.{Result, ok, thrown}
use plazza.Ipc.{Packet}
use plazza.Ipc.MessageQueue.{SysV, got, no_message, MessageQueue, send, receive}

-- What the manual of System V queues promises of the two calls: `contents` is the packets that a
-- queue holds, oldest first, and `none` where there is no such queue.
pub record Delivers (os : SysV) : Type 0 where
  pub contents : ℕ → os.K → Option (List Packet)
  pub msgsnd_appends :
      (id : ℕ) (p : Packet) (k k' : os.K) (q : List Packet)
      → os.msgsnd id p k ≡ some k'
      → contents id k ≡ some q
      → contents id k' ≡ some (q ++ (p ∷ []))
  pub msgsnd_spares :
      (id other : ℕ) (p : Packet) (k k' : os.K)
      → os.msgsnd id p k ≡ some k'
      → id ≢ other
      → contents other k' ≡ contents other k
  pub msgrcv_empty : (id : ℕ) (k : os.K) → contents id k ≡ some [] → os.msgrcv id k ≡ no_message
  pub msgrcv_oldest :
      (id : ℕ) (k : os.K) (p : Packet) (q : List Packet)
      → contents id k ≡ some (p ∷ q)
      → (k' : os.K) × (os.msgrcv id k ≡ got p k') × (contents id k' ≡ some q)
  pub msgrcv_spares :
      (id other : ℕ) (p : Packet) (k k' : os.K)
      → os.msgrcv id k ≡ got p k'
      → id ≢ other
      → contents other k' ≡ contents other k

-- The specification: a queue of packets. A call of `send` may be refused.
pub data Operation : Type 0 where
  put : Packet → Operation
  take : Operation

-- What the caller sees.
pub data Reply : Type 0 where
  done : Reply
  refused : Reply
  packet : Packet → Reply
  empty : Reply
  broken : Reply

pub data SpecStep : List Packet → Operation → Reply → List Packet → Type 0 where
  put_done : (q : List Packet) (p : Packet) → SpecStep q (put p) done (q ++ (p ∷ []))
  put_refused : (q : List Packet) (p : Packet) → SpecStep q (put p) refused q
  take_packet : (q : List Packet) (p : Packet) → SpecStep (p ∷ q) take (packet p) q
  take_empty : SpecStep [] take empty []

-- A call on an object.
abbrev pub Call : Type 0
Call = MessageQueue × Operation

-- A run of calls on any objects, with their replies, as the specification of the queue `id` has
-- it: a call on another queue changes nothing of this one.
pub data SpecRun (id : ℕ) : List Packet → List Call → List Reply → List Packet → Type 0 where
  nothing_left : (q : List Packet) → SpecRun id q [] [] q
  on_this :
      {q mid last : List Packet} {o : Operation} {calls : List Call} {r : Reply} {rs : List Reply}
      (object : MessageQueue)
      → object.queue_id ≡ some id
      → SpecStep q o r mid
      → SpecRun id mid calls rs last
      → SpecRun id q ((object, o) ∷ calls) (r ∷ rs) last
  on_another :
      {q last : List Packet} {calls : List Call} {rs : List Reply} (object : MessageQueue)
      (o : Operation) (r : Reply)
      → object.queue_id ≢ some id
      → SpecRun id q calls rs last
      → SpecRun id q ((object, o) ∷ calls) (r ∷ rs) last

module _ (os : SysV) where
  abbrev pub reply_of_send : os.K × Result (Unit {0}) → os.K × Reply
  reply_of_send (k, ok u) = (k, done)
  reply_of_send (k, thrown e) = (k, refused)

  abbrev pub reply_of_receive : os.K × Result (Option Packet) → os.K × Reply
  reply_of_receive (k, ok none) = (k, empty)
  reply_of_receive (k, ok (some p)) = (k, packet p)
  reply_of_receive (k, thrown e) = (k, broken)

  abbrev pub perform : Operation → MessageQueue → os.K → os.K × Reply
  perform (put p) q k = reply_of_send (send os p q k)
  perform take q k = reply_of_receive (receive os q k)

  -- The calls, with the replies.
  unfoldable pub run : List Call → os.K → os.K × List Reply
  unfolding send receive
  run [] k = (k, [])
  run ((object, o) ∷ calls) k =
      let (k', r) = perform o object k in let (k'', rs) = run calls k' in (k'', r ∷ rs)
