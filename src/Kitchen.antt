-- ===== src/Kitchen.antt =====
-- The kitchen process: its stock, its cooks, its thread pool and its main loop.
pub mod Ingredient
pub mod IngredientLaws
pub mod IngredientStock
pub mod StockLaws
pub mod StockGrowth
pub mod Cook
pub mod CookLaws
pub mod ThreadPool
pub mod KitchenWorker
pub mod Examples
