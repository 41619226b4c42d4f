-- ===== src/Pizza/Examples.antt =====
-- The theorem of the factory at concrete values.
use plazza.Prelude.{◌≡◌, [], ◌∷◌}
use plazza.Pizza.Factory.{fresh_registry, create}
use plazza.Pizza.FactoryLaws.{menu, history, create-history}

create-history_example : (create 1 16 (history ((8, 2) ∷ (3, 1) ∷ []) fresh_registry)).1 ≡ menu 1 16
create-history_example = create-history ((8, 2) ∷ (3, 1) ∷ []) 1 16
