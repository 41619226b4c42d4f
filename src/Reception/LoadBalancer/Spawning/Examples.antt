-- ===== src/Reception/LoadBalancer/Spawning/Examples.antt =====
-- The queues of a kitchen where an earlier run has left a queue under the key of the first.
use plazza.Prelude.{ℕ, ◌≡◌, ◌≢◌, refl, sym, ap, ◌∙◌, List, [], ◌∷◌, Option, none, some, arith}
use plazza.Errors.{ok}
use plazza.Text.{to_string}
use plazza.Ipc.{Packet, zero_packet}
use plazza.Ipc.MessageQueue.Opening.{creator, opener}
use plazza.Ipc.MessageQueue.Model.{
  Kernel, write, write_there, no_queues, find_key, make-is, model, model-Delivers, model-Opens,
}
use plazza.Reception.LoadBalancer.{order_path, result_path}
use plazza.Reception.LoadBalancer.Spawning.{
  create_queues, open_queues, Spares, both, create_queues-meet,
}

find_key-is : (key id : ℕ) (o : Option (List Packet)) → find_key key o ≡ some id → key ≡ id
find_key-is key id none e = absurd (cc)
find_key-is key id (some q) e = cc

fopen-same : (k k' : Kernel) → ◌≡◌ {A = Option Kernel} (some k) (some k') → k ≡ k'
fopen-same k k' e = cc

model-Spares : Spares model model-Delivers
model-Spares = record {
  fopen_found = λ path key k k' e. ap (λ l. find_key key (l key)) (sym (fopen-same k k' e));
  fopen_contents = λ path id k k' e. ap (λ l. l id) (sym (fopen-same k k' e));
  fopen_ftok = λ path other key k k' e t. t;
  one_key =
      λ key other id k e f. find_key-is key id (k key) e ∙ sym (find_key-is other id (k other) f);
  new_found = λ key other id k k' e differs. ap (find_key other) (
      sym (ap (λ l. l other) (make-is key id k k' (k key) e).1)
      ∙ write_there key other (some []) k differs);
  new_contents = λ key id other k k' e differs.
      let (key-is, k'-is) = make-is key id k k' (k key) e in
      sym (ap (λ l. l other) k'-is)
      ∙ write_there key other (some []) k (λ same. differs (sym key-is ∙ same));
  remove_found = λ id other key k differs e.
      ap (find_key key)
        (write_there id key none k (λ same. differs (same ∙ find_key-is key other (k key) e)))
      ∙ e;
  remove_contents = λ id other k differs. write_there id other none k differs;
}

abbrev with_stale : Kernel
with_stale = write 13 (some (zero_packet ∷ [])) no_queues

paths_apart :
    (l : Kernel) (key : ℕ)
    → model.ftok (order_path 0) l ≡ some key
    → model.ftok (result_path 0) l ≢ some key
unfolding order_path result_path to_string
paths_apart l key e f = let same : ◌≡◌ {A = ℕ} 13 14 = cc in omega arith

create_queues-meet_example :
    (i : ℕ) × (j : ℕ) × (k' : Kernel) × (create_queues model 0 with_stale ≡ (
      k',
      ok (
          both model model-Delivers model-Opens model-Spares
            (creator model model-Delivers model-Opens)
            0
            i
            j),
    ))
    × (open_queues model 0 k' ≡ (
      k',
      ok (
          both model model-Delivers model-Opens model-Spares
            (opener model model-Delivers model-Opens)
            0
            i
            j),
    ))
    × (i ≢ j)
    × (k' i ≡ some [])
    × (k' j ≡ some [])
create_queues-meet_example =
    create_queues-meet model model-Delivers model-Opens model-Spares 0 with_stale
      (λ path l. (l, refl)) (λ l. refl) paths_apart
