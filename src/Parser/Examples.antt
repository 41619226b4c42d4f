-- ===== src/Parser/Examples.antt =====
-- The theorems of the parser at concrete lines.
use plazza.Prelude.{refl, [], ◌∷◌, codes}
use plazza.Parser.{parse}
use plazza.Parser.Lines.{WritesLine, parse_iff-WritesLine}

parse_iff-WritesLine_example : WritesLine (codes "Regina XXL x7;fantasiaMx12 ") (
    record { type = 1; size = 16; quantity = 7 }
    ∷ record { type = 8; size = 2; quantity = 12 }
    ∷ [])
unfolding parse
parse_iff-WritesLine_example =
    (parse_iff-WritesLine (codes "Regina XXL x7;fantasiaMx12 ") (
        record { type = 1; size = 16; quantity = 7 }
        ∷ record { type = 8; size = 2; quantity = 12 }
        ∷ [])).0
      refl
