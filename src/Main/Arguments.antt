-- ===== src/Main/Arguments.antt =====
-- main.cpp: the function main itself: the arguments, what it builds, and how it ends. `stod` and
-- the comparison of doubles are parameters; `std::stoull` is a reading of the text in base ten.
pub mod Stoull
pub mod Opening
pub mod Success
use plazza.Prelude.{
  ℕ, ◌-◌, ◌^◌, ◌%◌, Bool, true, false, ◌&&◌, ◌||◌, List, [], ◌∷◌, ◌++◌, some, none, codes, ltb, leb,
  ◌==◌, if◌then◌else◌,
}
use plazza.Errors.{Result, ok, thrown, ◌>>=◌}
use plazza.Parser.{is_digit, decimal}
use plazza.Pizza.Factory.{fresh_registry}
use plazza.Reception.{Outcome, returned, threw}
use plazza.Reception.LoadBalancer.{LoadBalancer, Os, new_load_balancer}
use plazza.Reception.LoadBalancer.Shutdown.{shutdown}
use plazza.Main.{Orders}

pub record Doubles : Type 1 where
  pub Double : Type 0
  pub stod : List ℕ → Result Double
  pub at_most_zero : Double → Bool  -- `<= 0`, false for a NaN

abbrev pub is_space : ℕ → Bool
is_space c = (c == b' ') || (leb 9 c && leb c 13)

abbrev pub skip_spaces : List ℕ → List ℕ
skip_spaces [] = []
skip_spaces (c ∷ s) = let rest = skip_spaces s in if is_space c then rest else c ∷ s

abbrev pub leading_digits : List ℕ → List ℕ
leading_digits [] = []
leading_digits (c ∷ s) = let rest = leading_digits s in if is_digit c then c ∷ rest else []

-- The value of the digits, with a sign that is taken modulo 2 ^ 64.
abbrev pub signed : Bool → ℕ → ℕ
signed false n = n
signed true n = (2 ^ 64 - n) % 2 ^ 64

abbrev pub value_of : Bool → List ℕ → Result ℕ
value_of negative [] = thrown (codes "stoull")
value_of negative (c ∷ digits) =
    if ltb (decimal 0 (c ∷ digits)) (2 ^ 64)
    then ok (signed negative (decimal 0 (c ∷ digits)))
    else thrown (codes "stoull")

abbrev pub unsigned_part : List ℕ → Result ℕ
unsigned_part [] = value_of false []
unsigned_part (c ∷ s) =
    if c == b'-'
    then value_of true (leading_digits s)
    else if c == b'+'
    then value_of false (leading_digits s)
    else value_of false (leading_digits (c ∷ s))

unfoldable pub stoull : List ℕ → Result ℕ
unfolding is_digit decimal
stoull s = unsigned_part (skip_spaces s)

-- The load balancer of main, and the state of the callbacks.
unfoldable pub opened : ℕ → LoadBalancer Orders
unfolding new_load_balancer
opened n_cooks =
    new_load_balancer
      (record {
        registry = fresh_registry;
        log = [];
        world = record { pending = []; next_order_id = 0; ready = [] };
      })
      n_cooks

-- The status with which main ends, and what it writes to std::cerr.
pub record Exit : Type 0 where
  pub status : ℕ
  pub cerr : List ℕ

abbrev pub usage : List ℕ → Exit
usage program = record {
  status = 84;
  cerr = codes "Usage: " ++ (program ++ codes " <multiplier> <cooksPerKitchen> <regenTimeMs>\n");
}

abbrev pub refused : Exit
refused = record {
  status = 84;
  cerr = codes "multiplier must be > 0, cooks and regenTime must be strictly positive\n";
}

-- The handler of main.
abbrev pub reported : List ℕ → Exit
reported e = record { status = 84; cerr = codes "Error: " ++ (e ++ codes "\n") }

-- The destructor of the load balancer calls `shutdown`; an exception there ends the program.
pub data Ending : Type 0 where
  exited : Exit → Ending
  terminated : Ending

abbrev pub closing : Exit → Outcome (LoadBalancer Orders) → Ending
closing exit (returned lb) = exited exit
closing exit (threw e lb) = terminated

abbrev pub success : Exit
success = record { status = 0; cerr = [] }

abbrev pub ending_of_result : Result Ending → Ending
ending_of_result (ok ending) = ending
ending_of_result (thrown e) = exited (reported e)

-- `session` is the run of the shell, by the multiplier and the time of regeneration that the
-- kitchens get.
module _ (doubles : Doubles) (os : Os)
    (session : doubles.Double → ℕ → LoadBalancer Orders → Outcome (LoadBalancer Orders)) where
  unfoldable pub ending_of : Outcome (LoadBalancer Orders) → Ending
  unfolding shutdown
  ending_of (returned lb) = closing success (shutdown os lb)
  ending_of (threw e lb) = closing (reported e) (shutdown os lb)

  -- Once the arguments are read.
  unfoldable pub run_with : doubles.Double → ℕ → ℕ → Ending
  unfolding ending_of
  run_with multiplier n_cooks regen_ms =
      if doubles.at_most_zero multiplier || ((n_cooks == 0) || (regen_ms == 0))
      then exited refused
      else ending_of (session multiplier regen_ms (opened n_cooks))

  abbrev pub with_arguments : List ℕ → List ℕ → List ℕ → Result Ending
  with_arguments multiplier cooks regen = do
    m ← doubles.stod multiplier
    n ← stoull cooks
    r ← stoull regen
    ok (run_with m n r)

  -- Takes argv, the name of the program first.
  unfoldable pub main : List (List ℕ) → Ending
  unfolding run_with stoull
  main (program ∷ multiplier ∷ cooks ∷ regen ∷ []) =
      ending_of_result (with_arguments multiplier cooks regen)
  main (program ∷ _) = exited (usage program)
  main [] = exited (usage [])
