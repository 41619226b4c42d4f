-- ===== src/Main/Arguments/Opening.antt =====
-- The reception that main opens.
use plazza.Prelude.{ℕ, ◌^◌, ◌<◌, ◌≡◌, refl, false, List, [], ◌∷◌, ◌==◌, arith}
use plazza.Errors.{ok}
use plazza.Text.{to_string}
use plazza.Reception.{Outcome}
use plazza.Reception.LoadBalancer.{LoadBalancer, Os}
use plazza.Reception.LoadBalancer.Validity
use plazza.Main.{Orders}
use plazza.Main.Pending
use plazza.Main.Arguments.{Doubles, stoull, opened, ending_of, run_with, main}
use plazza.Main.Arguments.Stoull.{stoull-to_string}

-- The text of a positive multiplier.
abbrev pub IsMultiplier : (doubles : Doubles) → List ℕ → doubles.Double → Type 0
IsMultiplier doubles text m = (doubles.stod text ≡ ok m) × (doubles.at_most_zero m ≡ false)

module _ (doubles : Doubles) (os : Os)
    (session : doubles.Double → ℕ → LoadBalancer Orders → Outcome (LoadBalancer Orders)) where
  run_with-positive :
      (m : doubles.Double) (n r : ℕ)
      → doubles.at_most_zero m ≡ false
      → 0 < n
      → 0 < r
      → run_with doubles os session m n r ≡ ending_of doubles os session (session m r (opened n))
  unfolding run_with
  run_with-positive m n r p l k =
      let cooks : (n == 0) ≡ false = ground (arith, l) in
      let regen : (r == 0) ≡ false = ground (arith, k) in rw (p, cooks, regen) refl

  pub main-reads :
      (program multiplier cooks regen : List ℕ) (m : doubles.Double) (n r : ℕ)
      → IsMultiplier doubles multiplier m
      → stoull cooks ≡ ok n
      → stoull regen ≡ ok r
      → 0 < n
      → 0 < r
      → main doubles os session (program ∷ multiplier ∷ cooks ∷ regen ∷ [])
        ≡ ending_of doubles os session (session m r (opened n))
  unfolding main
  main-reads program multiplier cooks regen m n r p c g l k =
      rw (p.0, c, g) (run_with-positive m n r p.1 l k)

  -- With a positive multiplier, a positive number of cooks below 2 ^ 63 and a positive time of
  -- regeneration below 2 ^ 64, both written in decimal, main runs the session on a reception of
  -- that many cooks, where the invariants of the load balancer and of the pending orders hold, and
  -- ends as the session and the shutdown after it do.
  pub main-opens :
      (program multiplier : List ℕ) (m : doubles.Double) (n r : ℕ)
      → IsMultiplier doubles multiplier m
      → 0 < n
      → n < 2 ^ 63
      → 0 < r
      → r < 2 ^ 64
      → (main doubles os session (program ∷ multiplier ∷ to_string n ∷ to_string r ∷ [])
          ≡ ending_of doubles os session (session m r (opened n)))
        × Validity.IsValid (opened n)
        × Pending.IsValid (opened n).shared.world
  unfolding opened
  main-opens program multiplier m n r p l h k g = (
    main-reads program multiplier (to_string n) (to_string r) m n r p
        (stoull-to_string n (omega arith)) (stoull-to_string r g) l k,
    record { bounded = tt; numbered = omega arith; some_room = omega arith },
    record { in_turn = refl; unfinished = tt },
  )
