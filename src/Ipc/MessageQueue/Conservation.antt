-- ===== src/Ipc/MessageQueue/Conservation.antt =====
-- What goes into a queue comes out of it.
use plazza.Prelude.{
  Bool-cases, ==_iff, arith, Bool, true, false, ◌==◌, ℕ, ◌≡◌, ◌≢◌, refl, sym, ap, ◌∙◌, inl, inr,
  List, [], ◌∷◌, ◌++◌, append_assoc, append-nil, Option, none, some,
}
use plazza.Ipc.{Packet}
use plazza.Ipc.MessageQueue.{SysV, MessageQueue}
use plazza.Ipc.MessageQueue.Fifo.{
  Delivers, Operation, put, take, Reply, done, packet, SpecStep, put_done, put_refused, take_packet,
  take_empty, Call, SpecRun, nothing_left, on_this, on_another, run,
}
use plazza.Ipc.MessageQueue.Refinement.{run-SpecRun}

-- Whether the object uses the queue.
abbrev pub is_on : ℕ → MessageQueue → Bool
is_on id object = elim object.queue_id [ none ↦ false | some j ↦ j == id ]

abbrev pub accept_one : Bool → Operation → Reply → List Packet → List Packet
accept_one true (put p) done rest = p ∷ rest
accept_one here o r rest = rest

abbrev pub deliver_one : Bool → Operation → Reply → List Packet → List Packet
deliver_one true take (packet p) rest = p ∷ rest
deliver_one here o r rest = rest

-- The packets that the queue took, and those that it gave, in a run.
abbrev pub accepted : ℕ → List Call → List Reply → List Packet
accepted id [] rs = []
accepted id (c ∷ calls) [] = []
accepted id ((object, o) ∷ calls) (r ∷ rs) = accept_one (is_on id object) o r (accepted id calls rs)

abbrev pub delivered : ℕ → List Call → List Reply → List Packet
delivered id [] rs = []
delivered id (c ∷ calls) [] = []
delivered id ((object, o) ∷ calls) (r ∷ rs) =
    deliver_one (is_on id object) o r (delivered id calls rs)

module _ (id : ℕ) where
  is_on-this : (object : MessageQueue) → object.queue_id ≡ some id → is_on id object ≡ true
  is_on-this object e = rw e (ground arith)

  is_on-another :
      (object : MessageQueue) (at : Option ℕ)
      → object.queue_id ≡ at
      → at ≢ some id
      → is_on id object ≡ false
  is_on-another object none e other = rw e refl
  is_on-another object (some j) e other = elim (Bool-cases (j == id)) [
    | inl same ↦ absurd (other (ap some ((==_iff j id).0 same)))
    | inr differs ↦ rw e differs
  ]

  SpecStep-conserves :
      {q mid : List Packet} {o : Operation} {r : Reply} (ins outs last : List Packet)
      → SpecStep q o r mid
      → mid ++ ins ≡ outs ++ last
      → q ++ accept_one true o r ins ≡ deliver_one true o r outs ++ last
  SpecStep-conserves ins outs last (put_done q p) h = sym (append_assoc q (p ∷ []) ins) ∙ h
  SpecStep-conserves ins outs last (put_refused q p) h = h
  SpecStep-conserves ins outs last (take_packet q p) h = ap (λ l. p ∷ l) h
  SpecStep-conserves ins outs last take_empty h = h

  SpecRun-conserves :
      {q last : List Packet} {calls : List Call} {rs : List Reply}
      → SpecRun id q calls rs last
      → q ++ accepted id calls rs ≡ delivered id calls rs ++ last
  SpecRun-conserves (nothing_left q) = append-nil q
  SpecRun-conserves (on_this object e step rest) =
      rw (is_on-this object e) (SpecStep-conserves _ _ _ step (SpecRun-conserves rest))
  SpecRun-conserves (on_another object o r other rest) =
      rw (is_on-another object object.queue_id refl other) (SpecRun-conserves rest)

-- Nothing is lost, doubled or reordered: what a queue held, followed by the packets that it took
-- in a run, is what it gave, followed by what it holds at the end.
pub run-conserves :
    (os : SysV) (law : Delivers os) (id : ℕ) (calls : List Call) (q : List Packet) (k : os.K)
    → law.contents id k ≡ some q
    → (last : List Packet) × (law.contents id (run os calls k).0 ≡ some last)
      × (q ++ accepted id calls (run os calls k).1 ≡ delivered id calls (run os calls k).1 ++ last)
run-conserves os law id calls q k h =
    let (last, spec, end) = run-SpecRun os law id calls q k h in
    (last, end, SpecRun-conserves id spec)
