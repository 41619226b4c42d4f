-- ===== src/Regex.antt =====
-- std::regex as parser/Parser.cpp uses it: ECMAScript patterns over bytes, tried in the order of
-- the backtracking matcher, with the texts of the groups.
pub mod Meaning
pub mod Matcher
pub mod CaseFold
use plazza.Prelude.{ℕ, Bool, List, [], ◌∷◌, ◌++◌, Option, none, some, or_else, if◌then◌else◌}

-- The pattern constructs that the program writes. A class stands for one byte; `star` is greedy,
-- `lazy_plus` is `+?`.
pub data Regex : Type 0 where
  class : (ℕ → Bool) → Regex
  star : (ℕ → Bool) → Regex
  lazy_plus : (ℕ → Bool) → Regex
  seq : Regex → Regex → Regex
  alt : Regex → Regex → Regex
  group : Regex → Regex

-- What follows a match: it is given the text taken, the groups so far and the rest.
abbrev pub Cont : Type 0
Cont = List ℕ → List (List ℕ) → List ℕ → Option (List (List ℕ))

unfoldable pub exec_star : (ℕ → Bool) → Cont → List (List ℕ) → List ℕ → Option (List (List ℕ))
exec_star p k groups [] = k [] groups []
exec_star p k groups (c ∷ s) =
    let longer = exec_star p (λ taken. k (c ∷ taken)) groups s in
    if p c then or_else longer (k [] groups (c ∷ s)) else k [] groups (c ∷ s)

unfoldable pub exec_lazy : (ℕ → Bool) → Cont → List (List ℕ) → List ℕ → Option (List (List ℕ))
exec_lazy p k groups [] = none
exec_lazy p k groups (c ∷ s) =
    let longer = exec_lazy p (λ taken. k (c ∷ taken)) groups s in
    if p c then or_else (k (c ∷ []) groups s) longer else none

unfoldable pub exec_class : (ℕ → Bool) → Cont → List (List ℕ) → List ℕ → Option (List (List ℕ))
exec_class p k groups [] = none
exec_class p k groups (c ∷ s) = if p c then k (c ∷ []) groups s else none

unfoldable pub exec : Regex → Cont → List (List ℕ) → List ℕ → Option (List (List ℕ))
unfolding exec_star exec_lazy exec_class
exec (class p) k groups s = exec_class p k groups s
exec (star p) k groups s = exec_star p k groups s
exec (lazy_plus p) k groups s = exec_lazy p k groups s
exec (seq r q) k groups s = exec r (λ taken. exec q (λ more. k (taken ++ more))) groups s
exec (alt r q) k groups s = or_else (exec r k groups s) (exec q k groups s)
exec (group r) k groups s = exec r (λ taken found. k taken (found ++ taken ∷ [])) groups s

unfoldable pub at_end : Cont
at_end taken groups [] = some groups
at_end taken groups (c ∷ s) = none

-- `std::regex_match`: the whole text, and the groups in the order of their numbers.
unfoldable pub regex_match : Regex → List ℕ → Option (List (List ℕ))
unfolding exec at_end
regex_match r s = exec r at_end [] s
