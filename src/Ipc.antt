-- ===== src/Ipc.antt =====
-- ipc/PizzaSerializer.cpp and the packets of ipc/MessageQueue.hpp. An `enum class` over uint8_t
-- is a byte with names for some values; a packet that is value-initialised has type 0.
pub mod PizzaSerializer
pub mod MessageType
pub mod MessageQueue
use plazza.Prelude.{ℕ, suc, ◌+◌, ◌-◌, ◌%◌, List, [], ◌∷◌, ltb, if◌then◌else◌}
use plazza.Pizza.{PizzaType, PizzaSize, Pizza}

-- `char` is signed: `negsuc n` is -(n + 1).
pub data ℤ : Type 0 where
  pos : ℕ → ℤ
  negsuc : ℕ → ℤ

-- `static_cast<char>` of a byte, and the cast of a char to an enumeration over uint8_t.
unfoldable pub char_of_byte : ℕ → ℤ
char_of_byte b = if ltb b 128 then pos b else negsuc (255 - b)

unfoldable pub byte_of_char : ℤ → ℕ
byte_of_char (pos n) = n % 256
byte_of_char (negsuc n) = 255 - n % 256

-- `std::array<char, 2>`.
pub record PackedPizza : Type 0 where
  pub byte_0 : ℤ
  pub byte_1 : ℤ

unfoldable pub pack : Pizza → PackedPizza
unfolding char_of_byte
pack pizza = record { byte_0 = char_of_byte pizza.type; byte_1 = char_of_byte pizza.size }

unfoldable pub unpack : PackedPizza → Pizza
unfolding byte_of_char
unpack bytes = record { type = byte_of_char bytes.byte_0; size = byte_of_char bytes.byte_1 }

pub record PackedCook : Type 0 where
  pub id : ℕ
  pub state : ℕ
  pub pizza_type : PizzaType
  pub pizza_size : PizzaSize

pub record Packet : Type 0 where
  pub type : ℕ
  pub kitchen_id : ℕ
  pub pizza : PackedPizza
  pub load : ℕ
  pub capacity : ℕ
  pub n_cooks : ℕ
  pub stock : List ℕ  -- uint32_t quantities[9]
  pub cook : PackedCook

-- `Packet packet{}`.
abbrev pub zero_packet : Packet
zero_packet = record {
  type = 0;
  kitchen_id = 0;
  pizza = record { byte_0 = pos 0; byte_1 = pos 0 };
  load = 0;
  capacity = 0;
  n_cooks = 0;
  stock = 0 ∷ 0 ∷ 0 ∷ 0 ∷ 0 ∷ 0 ∷ 0 ∷ 0 ∷ 0 ∷ [];
  cook = record { id = 0; state = 0; pizza_type = 0; pizza_size = 0 };
}
