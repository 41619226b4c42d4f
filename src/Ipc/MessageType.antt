-- ===== src/Ipc/MessageType.antt =====
-- `plazza::MessageType` of ipc/MessageQueue.hpp.
use plazza.Prelude.{ℕ}

abbrev pub pizza : ℕ
pizza = 1

abbrev pub done : ℕ
done = 2

abbrev pub status_request : ℕ
status_request = 3

abbrev pub status_reply : ℕ
status_reply = 4

abbrev pub ready : ℕ
ready = 5

abbrev pub shutdown : ℕ
shutdown = 6

abbrev pub full : ℕ
full = 7

abbrev pub cook_status : ℕ
cook_status = 8
