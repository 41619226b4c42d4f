-- ===== src/Errors.antt =====
-- utils/ErrorMessage.hpp and exceptions/Exception.hpp. An exception is known by the text of its
-- `what()`: every handler of the program catches std::exception or everything.
use plazza.Prelude.{ℕ, List, codes, ◌≡◌, refl}

-- The outcome of code that may throw.
pub data Result {ℓ} (A : Type ℓ) : Type ℓ where
  ok : A → Result A
  thrown : List ℕ → Result A

-- An exception skips what follows.
infixl 5 ◌>>=◌
abbrev pub ◌>>=◌ {ℓ ℓ'} : {A : Type ℓ} {B : Type ℓ'} → Result A → (A → Result B) → Result B
thrown message >>= next = thrown message
ok value >>= next = next value

-- `Exception::thrownError`.
unfoldable pub thrown_error {ℓ} : {A : Type ℓ} → List ℕ → Result A
thrown_error message = thrown message

abbrev pub k_empty_order_segment : List ℕ
k_empty_order_segment = codes "empty order segment"

abbrev pub k_empty_order : List ℕ
k_empty_order = codes "empty order"

abbrev pub k_invalid_token : List ℕ
k_invalid_token = codes "invalid token: expected TYPE SIZE NUMBER"

abbrev pub k_unknown_pizza_type : List ℕ
k_unknown_pizza_type = codes "unknown pizza type: "

abbrev pub k_unknown_pizza_size : List ℕ
k_unknown_pizza_size = codes "unknown pizza size: "

abbrev pub k_invalid_number_format_expected : List ℕ
k_invalid_number_format_expected = codes "invalid number format (expected x<n>): "

abbrev pub k_quantity_must_be_positive : List ℕ
k_quantity_must_be_positive = codes "quantity must be >= 1: "

abbrev pub k_invalid_number_format : List ℕ
k_invalid_number_format = codes "invalid number format: "

-- A chain that succeeds has succeeded at each step.
pub ok_steps {ℓ ℓ'} :
    {A : Type ℓ} {B : Type ℓ'} {out : B} (next : A → Result B) (first : Result A)
    → (first >>= next) ≡ ok out
    → (value : A) × (first ≡ ok value) × (next value ≡ ok out)
ok_steps next (thrown message) e = absurd (cc)
ok_steps next (ok value) e = (value, refl, e)
