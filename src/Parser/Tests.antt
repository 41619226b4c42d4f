-- ===== src/Parser/Tests.antt =====
-- Runs of the parser on fixed lines.
use plazza.Prelude.{◌≡◌, refl, [], ◌∷◌, codes}
use plazza.Errors.{ok, thrown, k_empty_order_segment, k_invalid_token}
use plazza.Parser.{parse}

no_spaces : parse (codes "reginaXXLx7") ≡ ok (record { type = 1; size = 16; quantity = 7 } ∷ [])
unfolding parse
no_spaces = refl

two_orders :
    parse (codes "margarita S x1; fantasiaXLx20 ")
    ≡ ok (
        record { type = 2; size = 1; quantity = 1 }
        ∷ record { type = 8; size = 8; quantity = 20 }
        ∷ [])
unfolding parse
two_orders = refl

open_end : parse (codes "margarita S x1; ") ≡ thrown k_empty_order_segment
unfolding parse
open_end = refl

no_number : parse (codes "margarita S x0") ≡ thrown k_invalid_token
unfolding parse
no_number = refl

ambiguous_size : parse (codes "reginaX XLx1") ≡ thrown (codes "unknown pizza type: reginaX")
unfolding parse
ambiguous_size = refl
