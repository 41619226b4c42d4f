-- ===== src/Pizza.antt =====
-- Pizza.hpp. Both enumerations have the fixed underlying type uint8_t, so a value is any byte;
-- the enumerators are names for some of them.
pub mod Recipe
pub mod Factory
pub mod FactoryLaws
pub mod Examples
use plazza.Prelude.{ℕ}

abbrev pub PizzaType : Type 0
PizzaType = ℕ

abbrev pub PizzaSize : Type 0
PizzaSize = ℕ

abbrev pub regina : PizzaType
regina = 1

abbrev pub margarita : PizzaType
margarita = 2

abbrev pub americana : PizzaType
americana = 4

abbrev pub fantasia : PizzaType
fantasia = 8

abbrev pub s : PizzaSize
s = 1

abbrev pub m : PizzaSize
m = 2

abbrev pub l : PizzaSize
l = 4

abbrev pub xl : PizzaSize
xl = 8

abbrev pub xxl : PizzaSize
xxl = 16

pub record Pizza : Type 0 where
  pub type : PizzaType
  pub size : PizzaSize

pub record PizzaOrder : Type 0 where
  pub type : PizzaType
  pub size : PizzaSize
  pub quantity : ℕ
