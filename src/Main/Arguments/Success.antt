-- ===== src/Main/Arguments/Success.antt =====
-- When main ends well.
use plazza.Prelude.{
  ℕ, ◌<◌, ◌≡◌, ◌≢◌, ◌↔◌, refl, ap, ◌∙◌, Bool, true, false, ◌||◌, List, [], ◌∷◌, ◌==◌, if◌then◌else◌,
  arith,
}
use plazza.Errors.{Result, ok, thrown, ok_steps}
use plazza.Reception.{Outcome, returned, threw}
use plazza.Reception.LoadBalancer.{LoadBalancer, Os}
use plazza.Reception.LoadBalancer.Shutdown.{shutdown}
use plazza.Main.{Orders}
use plazza.Main.Arguments.{
  Doubles, stoull, opened, Exit, refused, reported, Ending, exited, terminated, closing, success,
  ending_of_result, ending_of, run_with, with_arguments, main,
}
use plazza.Main.Arguments.Opening.{IsMultiplier, main-reads}

abbrev status_of : Ending → ℕ
status_of (exited exit) = exit.status
status_of terminated = 1

reported-fails : (text : List ℕ) → exited (reported text) ≢ exited success
reported-fails text e = let f = ap status_of e in omega arith

closing-inverse :
    (exit : Exit) (o : Outcome (LoadBalancer Orders))
    → closing exit o ≡ exited success
    → (closed : LoadBalancer Orders) × (o ≡ returned closed) × (exit ≡ success)
closing-inverse exit (returned closed) e = (closed, refl, cc)
closing-inverse exit (threw text lb) e = absurd (cc)

refused-inverse :
    (b : Bool) (x : Ending)
    → (if b then exited refused else x) ≡ exited success
    → (b ≡ false) × (x ≡ exited success)
refused-inverse true x e = absurd (let f = ap status_of e in omega arith)
refused-inverse false x e = (refl, e)

module _ (doubles : Doubles) (os : Os)
    (session : doubles.Double → ℕ → LoadBalancer Orders → Outcome (LoadBalancer Orders)) where
  -- What it takes for main to end well.
  pub record Succeeds (program multiplier cooks regen : List ℕ) : Type 0 where
    pub m : doubles.Double
    pub n : ℕ
    pub r : ℕ
    pub after : LoadBalancer Orders
    pub closed : LoadBalancer Orders
    pub has_multiplier : IsMultiplier doubles multiplier m
    pub has_cooks : stoull cooks ≡ ok n
    pub has_regen : stoull regen ≡ ok r
    pub some_cooks : 0 < n
    pub some_regen : 0 < r
    pub returns : session m r (opened n) ≡ returned after
    pub closes : shutdown os after ≡ returned closed

  well_only :
      (result : Result Ending)
      → ending_of_result result ≡ exited success
      → result ≡ ok (exited success)
  well_only (ok ending) e = ap ok e
  well_only (thrown text) e = absurd (reported-fails text e)

  ending_of-inverse :
      (o : Outcome (LoadBalancer Orders))
      → ending_of doubles os session o ≡ exited success
      → (after : LoadBalancer Orders) × (closed : LoadBalancer Orders) × (o ≡ returned after)
        × (shutdown os after ≡ returned closed)
  unfolding ending_of
  ending_of-inverse (returned lb) e =
      let (closed, f, same) = closing-inverse success (shutdown os lb) e in (lb, closed, refl, f)
  ending_of-inverse (threw text lb) e =
      let (closed, f, same) = closing-inverse (reported text) (shutdown os lb) e in
      absurd (reported-fails text (ap exited same))

  run_with-inverse :
      (m : doubles.Double) (n r : ℕ)
      → run_with doubles os session m n r ≡ exited success
      → (doubles.at_most_zero m ≡ false)
        × (0 < n)
        × (0 < r)
        × (ending_of doubles os session (session m r (opened n)) ≡ exited success)
  unfolding run_with
  run_with-inverse m n r e =
      let (good, well) = refused-inverse (doubles.at_most_zero m || ((n == 0) || (r == 0))) _ e in
      (ground (arith, good), ground (arith, good), ground (arith, good), well)

  main-inverse :
      (program multiplier cooks regen : List ℕ)
      → main doubles os session (program ∷ multiplier ∷ cooks ∷ regen ∷ []) ≡ exited success
      → Succeeds program multiplier cooks regen
  unfolding main
  main-inverse program multiplier cooks regen e =
      let chain = well_only (with_arguments doubles os session multiplier cooks regen) e in
      let (m, at_m, e₁) = ok_steps _ (doubles.stod multiplier) chain in
      let (n, at_n, e₂) = ok_steps _ (stoull cooks) e₁ in
      let (r, at_r, e₃) = ok_steps _ (stoull regen) e₂ in
      let ends : run_with doubles os session m n r ≡ exited success = cc in
      let (p, l, k, well) = run_with-inverse m n r ends in
      let (after, closed, returns, closes) = ending_of-inverse (session m r (opened n)) well in
      record {
        m = m;
        n = n;
        r = r;
        after = after;
        closed = closed;
        has_multiplier = (at_m, p);
        has_cooks = at_n;
        has_regen = at_r;
        some_cooks = l;
        some_regen = k;
        returns = returns;
        closes = closes;
      }

  main-well :
      (program multiplier cooks regen : List ℕ)
      → Succeeds program multiplier cooks regen
      → main doubles os session (program ∷ multiplier ∷ cooks ∷ regen ∷ []) ≡ exited success
  unfolding ending_of
  main-well program multiplier cooks regen s =
      main-reads doubles os session program multiplier cooks regen s.m s.n s.r s.has_multiplier
        s.has_cooks s.has_regen s.some_cooks s.some_regen
      ∙ rw (s.returns, s.closes) refl

  -- main ends with status 0 and writes nothing to std::cerr exactly where the three arguments are
  -- read as a multiplier that is not at most zero and two positive numbers, the session returns
  -- without an exception, and so does the shutdown after it.
  pub main-Succeeds :
      (program multiplier cooks regen : List ℕ)
      → (main doubles os session (program ∷ multiplier ∷ cooks ∷ regen ∷ []) ≡ exited success)
        ↔ Succeeds program multiplier cooks regen
  main-Succeeds program multiplier cooks regen =
      (main-inverse program multiplier cooks regen, main-well program multiplier cooks regen)
