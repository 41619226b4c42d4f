-- ===== src/Logger/Examples.antt =====
-- The log of two pizzas.
use plazza.Prelude.{ℕ, ◌≡◌, refl, List, [], ◌∷◌, codes, arith}
use plazza.Text.Reading.{Lacks}
use plazza.Logger.{Entry, log_all}
use plazza.Logger.Legible.{IsPlain, log_all-tells}

abbrev noon : List ℕ
noon = codes "12:00"

abbrev first : Entry
first = record { time = noon; kitchen_id = 10; pizza_name = codes "Reg" }

abbrev second : Entry
second = record { time = noon; kitchen_id = 0; pizza_name = codes "Mar" }

log_all-two :
    log_all (first ∷ second ∷ []) []
    ≡ codes "[12:00] Kitchen #10 - Reg done\n[12:00] Kitchen #0 - Mar done\n"
unfolding log_all
log_all-two = refl

-- The letters and digits of the two entries are no marks.
noon-Lacks : Lacks b']' noon
noon-Lacks = (
  λ e. omega arith,
  (λ e. omega arith, (λ e. omega arith, (λ e. omega arith, (λ e. omega arith, tt)))),
)

first-IsPlain : IsPlain first
first-IsPlain = (noon-Lacks, (λ e. omega arith, (λ e. omega arith, (λ e. omega arith, tt))))

second-IsPlain : IsPlain second
second-IsPlain = (noon-Lacks, (λ e. omega arith, (λ e. omega arith, (λ e. omega arith, tt))))

log_all-tells_example : first ∷ second ∷ [] ≡ first ∷ second ∷ []
log_all-tells_example =
    log_all-tells (first ∷ second ∷ []) (first ∷ second ∷ []) []
      (first-IsPlain, (second-IsPlain, tt)) (first-IsPlain, (second-IsPlain, tt)) refl
