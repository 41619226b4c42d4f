-- ===== src/Shell/Laws.antt =====
-- What a line of input leads to.
use plazza.Prelude.{
  ℕ, ◌≡◌, ◌≢◌, refl, sym, subst, ap, true, false, Option, none, some, inl, inr, List, [], ◌∷◌, ◌++◌,
  codes, str_eq, str_eq→eq, str_eq_refl, Bool-cases,
}
use plazza.Errors.{Result, ok, thrown}
use plazza.Pizza.{PizzaOrder}
use plazza.Parser.{parse}
use plazza.Parser.Lines.{WritesLine, parse_iff-WritesLine}
use plazza.Reception.{Outcome, returned, threw}
use plazza.Reception.LoadBalancer.{◌>>=◌}
use plazza.Shell.{
  Callbacks, trimmed, is_empty, catch_all, call, call_order, handle_line, Event, line_read, run,
}

abbrev pub status_word : List ℕ
status_word = codes "status"

is_empty-eq : (s : List ℕ) → is_empty s ≡ true → s ≡ []
is_empty-eq [] h = refl
is_empty-eq (c ∷ s) h = absurd (cc)

not_empty : {s : List ℕ} → is_empty s ≡ false → s ≢ []
not_empty e empty = let same = ap is_empty empty in absurd (cc)

not_status : {s : List ℕ} → str_eq s status_word ≡ false → s ≢ status_word
not_status f same =
    let e = str_eq_refl status_word in let h = ap (λ t. str_eq t status_word) same in absurd (cc)

-- The callback's outcome as it leaves the shell: the text of an exception has a prefix.
abbrev pub prefixed : {W : Type 0} → Outcome W → Outcome W
prefixed (returned w) = returned w
prefixed (threw e w) = threw (codes "error: " ++ e) w

-- What the callback for orders does, where there is one.
abbrev pub ordered_by :
    {W : Type 0} → Option (List PizzaOrder → W → Outcome W) → List PizzaOrder → W → Outcome W
ordered_by none orders w = returned w
ordered_by (some f) orders w = f orders w

catch_all-prefixed : {W : Type 0} (o : Outcome W) → catch_all o ≡ prefixed o
unfolding catch_all
catch_all-prefixed (returned w) = refl
catch_all-prefixed (threw e w) = refl

module _ {W : Type 0} (callbacks : Callbacks W) where
  call_order-ordered_by :
      (orders : List PizzaOrder) (w : W)
      → catch_all (call_order callbacks (ok orders) w)
        ≡ prefixed (ordered_by callbacks.order_cb orders w)
  unfolding call_order
  call_order-ordered_by orders w = of callbacks.order_cb
    where
      of :
          (cb : Option (List PizzaOrder → W → Outcome W))
          → catch_all (elim cb [ none ↦ returned w | some f ↦ f orders w ])
            ≡ prefixed (ordered_by cb orders w)
      of none = catch_all-prefixed (returned w)
      of (some f) = catch_all-prefixed (f orders w)

  -- The ways in which a line is handled.
  pub data Handled (line : List ℕ) (w : W) : Outcome W → Type 0 where
    blank : trimmed line ≡ [] → Handled line w (returned w)
    status : trimmed line ≡ status_word → Handled line w (call callbacks callbacks.status_cb w)
    ordered :
        (orders : List PizzaOrder)
        → WritesLine (trimmed line) orders
        → Handled line w (prefixed (ordered_by callbacks.order_cb orders w))
    rejected :
        (e : List ℕ)
        → trimmed line ≢ []
        → trimmed line ≢ status_word
        → parse (trimmed line) ≡ thrown e
        → ((orders : List PizzaOrder) → ¬ WritesLine (trimmed line) orders)
        → Handled line w (threw (codes "error: " ++ e) w)

  handle_parsed :
      (line : List ℕ) (w : W) (r : Result (List PizzaOrder))
      → trimmed line ≢ []
      → trimmed line ≢ status_word
      → parse (trimmed line) ≡ r
      → Handled line w (catch_all (call_order callbacks r w))
  unfolding catch_all call_order
  handle_parsed line w (ok orders) not_empty not_status e =
      subst (Handled line w) (sym (call_order-ordered_by orders w))
        (ordered orders ((parse_iff-WritesLine (trimmed line) orders).0 e))
  handle_parsed line w (thrown message) not_empty not_status e =
      rejected message not_empty not_status e (λ orders writes.
        let parsed = (parse_iff-WritesLine (trimmed line) orders).1 writes in absurd (cc))

  -- Every way in which a line is handled, trailing blanks aside: an empty line does nothing; the
  -- word "status" calls the status callback; a line of the grammar calls the order callback with
  -- the orders that it writes, and an exception of that callback gets "error: " before its text;
  -- and a line that is none of the three is thrown out of the shell, as the parser's error with
  -- the same prefix.
  pub handle_line-Handled : (line : List ℕ) (w : W) → Handled line w (handle_line callbacks line w)
  unfolding handle_line
  handle_line-Handled line w = elim (Bool-cases (is_empty (trimmed line))) [
    | inl e ↦ rw e (blank (is_empty-eq (trimmed line) e))
    | inr e ↦ elim (Bool-cases (str_eq (trimmed line) status_word)) [
      | inl f ↦ rw (e, f) (status (str_eq→eq (trimmed line) status_word f))
      | inr f ↦
          rw (e, f) (handle_parsed line w (parse (trimmed line)) (not_empty e) (not_status f) refl)
    ]
  ]

  thrown_out :
      (line : List ℕ) (w : W) (o : Outcome W)
      → Handled line w o
      → trimmed line ≢ []
      → trimmed line ≢ status_word
      → ((orders : List PizzaOrder) → ¬ WritesLine (trimmed line) orders)
      → (e : List ℕ) × (o ≡ threw (codes "error: " ++ e) w)
  thrown_out line w o (blank h) not_empty not_status bad = absurd (not_empty h)
  thrown_out line w o (status h) not_empty not_status bad = absurd (not_status h)
  thrown_out line w o (ordered orders h) not_empty not_status bad = absurd (bad orders h)
  thrown_out line w o (rejected e h₁ h₂ h₃ h₄) not_empty not_status bad = (e, refl)

  -- A line that is neither blank, nor the word "status", nor of the grammar, ends the shell with
  -- an exception, whatever would have been typed after it.
  pub run-rejected :
      (line : List ℕ) (w : W)
      → trimmed line ≢ []
      → trimmed line ≢ status_word
      → ((orders : List PizzaOrder) → ¬ WritesLine (trimmed line) orders)
      → (e : List ℕ) × ((events : List Event)
          → run callbacks (line_read line ∷ events) w ≡ threw (codes "error: " ++ e) w)
  unfolding run
  run-rejected line w not_empty not_status bad =
      let (e, h) =
        thrown_out line w (handle_line callbacks line w) (handle_line-Handled line w) not_empty
          not_status bad in
      (e, λ events. ap (λ o. o >>= run callbacks events) h)
