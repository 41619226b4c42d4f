-- ===== src/Logger.antt =====
-- logger/Logger.cpp: the lines of plazza.log. The time of a line is what `timestamp` gives, a
-- parameter; the file is the text that it holds.
pub mod Legible
pub mod Examples
use plazza.Prelude.{ℕ, List, [], ◌∷◌, ◌++◌, codes}
use plazza.Text.{to_string}

-- A call of `logPizzaDone`, with the time at which it is made.
pub record Entry : Type 0 where
  pub time : List ℕ
  pub kitchen_id : ℕ
  pub pizza_name : List ℕ

-- The line, before what is written after it.
unfoldable pub line_text : Entry → List ℕ → List ℕ
unfolding to_string
line_text entry rest =
    codes "["
    ++ (entry.time
        ++ (codes "] Kitchen #"
            ++ (to_string entry.kitchen_id
                ++ (codes " - " ++ (entry.pizza_name ++ (codes " done\n" ++ rest))))))

unfoldable pub log_pizza_done : Entry → List ℕ → List ℕ
unfolding line_text
log_pizza_done entry file = file ++ line_text entry []

unfoldable pub log_all : List Entry → List ℕ → List ℕ
unfolding log_pizza_done
log_all [] file = file
log_all (entry ∷ entries) file = log_all entries (log_pizza_done entry file)
