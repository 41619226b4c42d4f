-- ===== src/Ipc/MessageQueue/Model.antt =====
-- A kernel that keeps the promises of Fifo.antt and Opening.antt: the queues by their keys, which
-- are also their ids, with room for any number of them.
use plazza.Prelude.{
  ℕ, ◌≡◌, ◌≢◌, refl, sym, ap, ◌∙◌, inl, inr, true, List, [], ◌∷◌, ◌++◌, Option, none, some, ◌==◌,
  ==_iff, Bool-cases, if◌then◌else◌, length, arith,
}
use plazza.Ipc.{Packet}
use plazza.Ipc.MessageQueue.{SysV, Received, got, no_message, failed}
use plazza.Ipc.MessageQueue.Fifo.{Delivers}
use plazza.Ipc.MessageQueue.Opening.{Opens}

abbrev pub Kernel : Type 0
Kernel = ℕ → Option (List Packet)

abbrev pub write : ℕ → Option (List Packet) → Kernel → Kernel
write id q k j = if id == j then q else k j

abbrev pub no_queues : Kernel
no_queues id = none

abbrev pub find_key : ℕ → Option (List Packet) → Option ℕ
find_key key none = none
find_key key (some q) = some key

abbrev pub append_to : ℕ → Packet → Kernel → Option (List Packet) → Option Kernel
append_to id p k none = none
append_to id p k (some q) = some (write id (some (q ++ (p ∷ []))) k)

abbrev pub take_from : ℕ → Kernel → Option (List Packet) → Received Kernel
take_from id k none = failed
take_from id k (some []) = no_message
take_from id k (some (p ∷ q)) = got p (write id (some q) k)

abbrev pub make : ℕ → Kernel → Option (List Packet) → Option (ℕ × Kernel)
make key k (some q) = none
make key k none = some (key, write key (some []) k)

abbrev pub model : SysV
model = record {
  K = Kernel;
  fopen = λ path k. some k;
  remove = λ path k. k;
  ftok = λ path k. some (length path);
  msgget = λ key k. find_key key (k key);
  msgget_new = λ key k. make key k (k key);
  msgctl_remove = λ id k. write id none k;
  msgsnd = λ id p k. append_to id p k (k id);
  msgrcv = λ id k. take_from id k (k id);
}

pub write_here : (id : ℕ) (q : Option (List Packet)) (k : Kernel) → write id q k id ≡ q
write_here id q k = ground arith

pub write_there : (id j : ℕ) (q : Option (List Packet)) (k : Kernel) → id ≢ j → write id q k j ≡ k j
write_there id j q k other = elim (Bool-cases (id == j)) [
  | inl e ↦ absurd (other ((==_iff id j).0 e))
  | inr e ↦ rw e refl
]

pub append_to-appends :
    (id : ℕ) (p : Packet) (k k' : Kernel) (q : List Packet) (o : Option (List Packet))
    → append_to id p k o ≡ some k'
    → o ≡ some q
    → k' id ≡ some (q ++ (p ∷ []))
append_to-appends id p k k' q none e h = absurd (cc)
append_to-appends id p k k' q (some r) e h =
    let k'-is : write id (some (r ++ (p ∷ []))) k ≡ k' = cc in
    let r-is : r ≡ q = cc in
    sym (ap (λ x. x id) k'-is)
    ∙ write_here id (some (r ++ (p ∷ []))) k
    ∙ ap (λ x. some (x ++ (p ∷ []))) r-is

pub append_to-spares :
    (id other : ℕ) (p : Packet) (k k' : Kernel) (o : Option (List Packet))
    → append_to id p k o ≡ some k'
    → id ≢ other
    → k' other ≡ k other
append_to-spares id other p k k' none e differs = absurd (cc)
append_to-spares id other p k k' (some r) e differs =
    let k'-is : write id (some (r ++ (p ∷ []))) k ≡ k' = cc in
    sym (ap (λ x. x other) k'-is) ∙ write_there id other (some (r ++ (p ∷ []))) k differs

pub take_from-spares :
    (id other : ℕ) (p : Packet) (k k' : Kernel) (o : Option (List Packet))
    → take_from id k o ≡ got p k'
    → id ≢ other
    → k' other ≡ k other
take_from-spares id other p k k' none e differs = absurd (cc)
take_from-spares id other p k k' (some []) e differs = absurd (cc)
take_from-spares id other p k k' (some (r ∷ q)) e differs =
    let k'-is : write id (some q) k ≡ k' = cc in
    sym (ap (λ x. x other) k'-is) ∙ write_there id other (some q) k differs

pub take_from-oldest :
    (id : ℕ) (k : Kernel) (p : Packet) (q : List Packet)
    → k id ≡ some (p ∷ q)
    → (k' : Kernel) × (take_from id k (k id) ≡ got p k') × (k' id ≡ some q)
take_from-oldest id k p q e = (write id (some q) k, ap (take_from id k) e, write_here id (some q) k)

abbrev pub model-Delivers : Delivers model
model-Delivers = record {
  contents = λ id k. k id;
  msgsnd_appends = λ id p k k' q e h. append_to-appends id p k k' q (k id) e h;
  msgsnd_spares = λ id other p k k' e differs. append_to-spares id other p k k' (k id) e differs;
  msgrcv_empty = λ id k e. ap (take_from id k) e;
  msgrcv_oldest = take_from-oldest;
  msgrcv_spares = λ id other p k k' e differs. take_from-spares id other p k k' (k id) e differs;
}

pub find_key-unfound :
    (key id : ℕ) (k : Kernel) (o : Option (List Packet))
    → find_key key o ≡ some id
    → find_key key (write id none k key) ≡ none
find_key-unfound key id k none e = absurd (cc)
find_key-unfound key id k (some q) e =
    let same : key ≡ id = cc in
    ap (find_key key) (ap (λ i. write i none k key) (sym same) ∙ write_here key none k)

pub make-made :
    (key : ℕ) (k : Kernel) (o : Option (List Packet))
    → find_key key o ≡ none
    → (id : ℕ) × (k' : Kernel) × (make key k o ≡ some (id, k'))
make-made key k none e = (_, _, refl)
make-made key k (some q) e = absurd (cc)

-- The queue that is made.
pub make-is :
    (key id : ℕ) (k k' : Kernel) (o : Option (List Packet))
    → make key k o ≡ some (id, k')
    → (key ≡ id) × (write key (some []) k ≡ k')
make-is key id k k' (some q) e = absurd (cc)
make-is key id k k' none e =
    let both : ◌≡◌ {A = ℕ × Kernel} (key, write key (some []) k) (id, k') = cc in
    (ap (λ x. x.0) both, ap (λ x. x.1) both)

pub make-empty :
    (key id : ℕ) (k k' : Kernel) (o : Option (List Packet))
    → make key k o ≡ some (id, k')
    → k' id ≡ some []
make-empty key id k k' o e =
    let (id-is, k'-is) = make-is key id k k' o e in
    sym (ap (λ x. x id) k'-is)
    ∙ ap (λ i. write key (some []) k i) (sym id-is)
    ∙ write_here key (some []) k

pub make-found :
    (key id : ℕ) (k k' : Kernel) (o : Option (List Packet))
    → make key k o ≡ some (id, k')
    → find_key key (k' key) ≡ some id
make-found key id k k' o e =
    let (id-is, k'-is) = make-is key id k k' o e in
    ap (find_key key) (sym (ap (λ x. x key) k'-is) ∙ write_here key (some []) k) ∙ ap some id-is

abbrev pub model-Opens : Opens model model-Delivers
model-Opens = record {
  has_room = λ k. true;
  fopen_named = λ path k k' e. (length path, refl);
  remove_unfound = λ key id k e. find_key-unfound key id k (k key) e;
  remove_room = λ id k e. refl;
  msgget_new_made = λ key k e r. make-made key k (k key) e;
  msgget_new_empty = λ key id k k' e. make-empty key id k k' (k key) e;
  msgget_new_found = λ key id k k' e. make-found key id k k' (k key) e;
  ftok_remove = λ path id k. refl;
  ftok_new = λ path key id k k' e. refl;
}
