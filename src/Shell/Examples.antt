-- ===== src/Shell/Examples.antt =====
-- The theorems of the shell for a program that keeps the orders of the last line.
use plazza.Prelude.{ℕ, ◌≡◌, ◌≢◌, refl, List, [], ◌∷◌, ◌++◌, none, some, codes}
use plazza.Errors.{ok, thrown}
use plazza.Pizza.{PizzaOrder}
use plazza.Parser.{parse}
use plazza.Parser.Lines.{WritesLine, parse_iff-WritesLine}
use plazza.Reception.{returned, threw}
use plazza.Shell.{Callbacks, trimmed, handle_line, Event, line_read, run}
use plazza.Shell.Laws.{Handled, handle_line-Handled, run-rejected, status_word}

abbrev keeping : Callbacks (List PizzaOrder)
keeping = record {
  order_cb = some (λ orders w. returned orders);
  status_cb = some (λ w. returned w);
  poll_cb = none;
}

abbrev wrong_line : List ℕ
wrong_line = codes "calzone M x1"

wrong_line-thrown : parse wrong_line ≡ thrown (codes "unknown pizza type: calzone")
unfolding parse
wrong_line-thrown = refl

wrong_line-trimmed : trimmed wrong_line ≡ wrong_line
unfolding trimmed
wrong_line-trimmed = refl

ok-thrown : {A : Type 0} {a : A} {e : List ℕ} → thrown e ≢ ok a
ok-thrown h = absurd (cc)

wrong_line_bad : (orders : List PizzaOrder) → ¬ WritesLine (trimmed wrong_line) orders
wrong_line_bad orders = rw wrong_line-trimmed (λ writes.
    let parsed = (parse_iff-WritesLine wrong_line orders).1 writes in absurd (cc wrong_line-thrown))

handle_line-Handled_example :
    Handled keeping (codes "regina S x2 ") [] (handle_line keeping (codes "regina S x2 ") [])
handle_line-Handled_example = handle_line-Handled keeping (codes "regina S x2 ") []

wrong_line_filled : trimmed wrong_line ≢ []
unfolding trimmed
wrong_line_filled h = absurd (cc)

wrong_line_not_status : trimmed wrong_line ≢ status_word
unfolding trimmed
wrong_line_not_status h = absurd (cc)

run-rejected_example :
    (e : List ℕ) × ((events : List Event)
      → run keeping (line_read wrong_line ∷ events) [] ≡ threw (codes "error: " ++ e) [])
run-rejected_example =
    run-rejected keeping wrong_line [] wrong_line_filled wrong_line_not_status wrong_line_bad
