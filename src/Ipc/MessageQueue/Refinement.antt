-- ===== src/Ipc/MessageQueue/Refinement.antt =====
-- `send` and `receive` implement the specification of Fifo.antt.
use plazza.Prelude.{
  ℕ_discrete, ℕ, ◌≡◌, ◌≢◌, refl, ap, ◌∙◌, inl, inr, ◌⊎◌, List, [], ◌∷◌, ◌++◌, Option, none, some,
}
use plazza.Ipc.{Packet}
use plazza.Ipc.MessageQueue.{
  SysV, Received, got, no_message, failed, MessageQueue, send, sent, receive, received,
}
use plazza.Ipc.MessageQueue.Fifo.{
  Delivers, Operation, put, take, Reply, SpecStep, put_done, put_refused, take_packet, take_empty,
  Call, SpecRun, nothing_left, on_this, on_another, reply_of_send, reply_of_receive, perform, run,
}

module _ (os : SysV) (law : Delivers os) (id : ℕ) where
  -- The outcome of one call on this queue.
  abbrev pub Steps : List Packet → Operation → os.K × Reply → Type 0
  Steps q o (k', r) = (mid : List Packet) × SpecStep q o r mid × (law.contents id k' ≡ some mid)

  put-Steps :
      (p : Packet) (q : List Packet) (k : os.K) (o : Option os.K)
      → os.msgsnd id p k ≡ o
      → law.contents id k ≡ some q
      → Steps q (put p) (reply_of_send os (sent os k o))
  put-Steps p q k none e h = (q, put_refused q p, h)
  put-Steps p q k (some k') e h = (q ++ (p ∷ []), put_done q p, law.msgsnd_appends id p k k' q e h)

  take-Steps :
      (q : List Packet) (k : os.K)
      → law.contents id k ≡ some q
      → Steps q take (reply_of_receive os (received os k (os.msgrcv id k)))
  take-Steps [] k h = rw (law.msgrcv_empty id k h) ([], take_empty, h)
  take-Steps (p ∷ q) k h =
      let (k', e, h') = law.msgrcv_oldest id k p q h in rw e (q, take_packet q p, h')

  perform-Steps :
      (o : Operation) (object : MessageQueue) (q : List Packet) (k : os.K)
      → object.queue_id ≡ some id
      → law.contents id k ≡ some q
      → Steps q o (perform os o object k)
  unfolding send receive
  perform-Steps (put p) object q k e h = rw e (put-Steps p q k (os.msgsnd id p k) refl h)
  perform-Steps take object q k e h = rw e (take-Steps q k h)

  put-spares :
      (j : ℕ) (p : Packet) (k : os.K) (o : Option os.K)
      → j ≢ id
      → os.msgsnd j p k ≡ o
      → law.contents id (reply_of_send os (sent os k o)).0 ≡ law.contents id k
  put-spares j p k none other e = refl
  put-spares j p k (some k') other e = law.msgsnd_spares j id p k k' e other

  take-spares :
      (j : ℕ) (k : os.K) (r : Received os.K)
      → j ≢ id
      → os.msgrcv j k ≡ r
      → law.contents id (reply_of_receive os (received os k r)).0 ≡ law.contents id k
  take-spares j k (got p k') other e = law.msgrcv_spares j id p k k' e other
  take-spares j k no_message other e = refl
  take-spares j k failed other e = refl

  perform-spares :
      (o : Operation) (object : MessageQueue) (k : os.K) (at : Option ℕ)
      → object.queue_id ≡ at
      → at ≢ some id
      → law.contents id (perform os o object k).0 ≡ law.contents id k
  unfolding send receive
  perform-spares (put p) object k none e other = rw e refl
  perform-spares take object k none e other = rw e refl
  perform-spares (put p) object k (some j) e other =
      rw e (put-spares j p k (os.msgsnd j p k) (λ same. other (ap some same)) refl)
  perform-spares take object k (some j) e other =
      rw e (take-spares j k (os.msgrcv j k) (λ same. other (ap some same)) refl)

  this_or_another : (at : Option ℕ) → (at ≡ some id) ⊎ (at ≢ some id)
  this_or_another none = inr (λ e. absurd (cc))
  this_or_another (some j) = elim (ℕ_discrete j id) [
    | yes e ↦ inl (ap some e)
    | no e ↦ inr (λ same. e (let s : j ≡ id = cc in s))
  ]

  -- Whatever objects send and receive, in whatever order, and whatever the kernel refuses to take,
  -- the replies to the calls on a queue are those of a first-in first-out queue, and what the
  -- kernel holds for it at the end is what the specification does; calls on another queue change
  -- nothing of this one.
  pub run-SpecRun :
      (calls : List Call) (q : List Packet) (k : os.K)
      → law.contents id k ≡ some q
      → (last : List Packet) × SpecRun id q calls (run os calls k).1 last
        × (law.contents id (run os calls k).0 ≡ some last)
  unfolding run
  run-SpecRun [] q k h = (q, nothing_left q, h)
  run-SpecRun ((object, o) ∷ calls) q k h = elim (this_or_another object.queue_id) [
    | inl e ↦
        let (mid, step, h') = perform-Steps o object q k e h in
        let (last, rest, end) = run-SpecRun calls mid (perform os o object k).0 h' in
        (last, on_this object e step rest, end)
    | inr e ↦
        let same = perform-spares o object k object.queue_id refl e in
        let (last, rest, end) = run-SpecRun calls q (perform os o object k).0 (same ∙ h) in
        (last, on_another object o (perform os o object k).1 e rest, end)
  ]
