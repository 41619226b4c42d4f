-- ===== src/Ipc/PizzaSerializer.antt =====
-- Round trip of the wire format, and the values that the protocol has for the enumerators.
use plazza.Prelude.{ℕ, ◌<◌, ◌≡◌, refl, arith, Bool, true, ◌&&◌, ◌==◌}
use plazza.Pizza.{Pizza}
use plazza.Pizza
use plazza.Ipc.{char_of_byte, byte_of_char, pack, unpack}

byte_of_char-char_of_byte : (b : ℕ) → b < 256 → byte_of_char (char_of_byte b) ≡ b
unfolding byte_of_char char_of_byte
byte_of_char-char_of_byte b h = ground arith

-- A pizza of any two bytes, those of no enumerator included, survives the wire, although the
-- bytes travel as signed characters.
pub unpack-pack : (p : Pizza) → p.type < 256 → p.size < 256 → unpack (pack p) ≡ p
unfolding unpack pack
unpack-pack p h k =
    ground (arith, byte_of_char-char_of_byte p.type, byte_of_char-char_of_byte p.size)

abbrev k_regina_wire_value : ℕ
k_regina_wire_value = 1

abbrev k_margarita_wire_value : ℕ
k_margarita_wire_value = 2

abbrev k_americana_wire_value : ℕ
k_americana_wire_value = 4

abbrev k_fantasia_wire_value : ℕ
k_fantasia_wire_value = 8

abbrev k_s_wire_value : ℕ
k_s_wire_value = 1

abbrev k_m_wire_value : ℕ
k_m_wire_value = 2

abbrev k_l_wire_value : ℕ
k_l_wire_value = 4

abbrev k_xl_wire_value : ℕ
k_xl_wire_value = 8

abbrev k_xxl_wire_value : ℕ
k_xxl_wire_value = 16

-- The conditions of the two static assertions.
abbrev types_match : Bool
types_match =
    (Pizza.regina == k_regina_wire_value)
    && ((Pizza.margarita == k_margarita_wire_value)
        && ((Pizza.americana == k_americana_wire_value)
            && (Pizza.fantasia == k_fantasia_wire_value)))

abbrev sizes_match : Bool
sizes_match =
    (Pizza.s == k_s_wire_value)
    && ((Pizza.m == k_m_wire_value)
        && ((Pizza.l == k_l_wire_value)
            && ((Pizza.xl == k_xl_wire_value) && (Pizza.xxl == k_xxl_wire_value))))

-- Both assertions hold, so that the code compiles.
types_match-sizes_match : (types_match && sizes_match) ≡ true
types_match-sizes_match = refl
