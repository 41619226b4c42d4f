-- ===== src/Text.antt =====
-- The text of a number, as `std::to_string` and the stream operators of unsigned numbers and of
-- ints that are not negative give it.
pub mod Reading
use plazza.Prelude.{ℕ, suc, zero, ◌+◌, ◌/◌, ◌%◌, true, false, List, [], ◌∷◌, ltb}

-- The digits of a number before a text, by fuel, which is enough above the number.
unfoldable pub digits : ℕ → ℕ → List ℕ → List ℕ
digits zero n s = s
digits (suc fuel) n s = elim (ltb n 10) [
  | true ↦ (b'0' + n) ∷ s
  | false ↦ digits fuel (n / 10) ((b'0' + n % 10) ∷ s)
]

unfoldable pub to_string : ℕ → List ℕ
unfolding digits
to_string n = digits (suc n) n []
