-- ===== src/Parser/Lines.antt =====
-- `parse`: a line is accepted exactly where it writes one or more orders separated by ';', and
-- the orders are those that it writes.
use plazza.Prelude.{
  ℕ, ◌≡◌, ◌≢◌, ◌↔◌, refl, sym, subst, inl, inr, true, false, List, [], ◌∷◌, ◌++◌, arith, none, some,
  Bool-cases, ◌==◌,
}
use plazza.Errors.{ok, ok_steps}
use plazza.Pizza.{PizzaOrder}
use plazza.Regex.Meaning.{every}
use plazza.Parser.{
  to_lower, all_blank, last_not_blank, getlines, parse_line, parse_segments, reject_empty,
  ends_open, parse,
}
use plazza.Parser.Grammar.{Writes}
use plazza.Parser.Segments.{join, no_end, getlines-last, getlines-append, join-getlines}
use plazza.Parser.Alphabet.{segment-no_end, segment-not_blank}
use plazza.Parser.Sound.{parse_line-Writes}
use plazza.Parser.Complete.{Writes-parse_line}

abbrev pub AllWrite : List (List ℕ) → List PizzaOrder → Type 0
AllWrite [] [] = Unit {0}
AllWrite [] (o ∷ orders) = ⊥
AllWrite (s ∷ segments) [] = ⊥
AllWrite (s ∷ segments) (o ∷ orders) = Writes (to_lower s) o × AllWrite segments orders

-- The line writes the orders, one or more, in either case of letters.
abbrev pub WritesLine : List ℕ → List PizzaOrder → Type 0
WritesLine line orders =
    (segments : List (List ℕ)) × (line ≡ join segments) × AllWrite segments orders × (orders ≢ [])

parse_segments-AllWrite :
    (segs : List (List ℕ)) {orders : List PizzaOrder}
    → parse_segments segs ≡ ok orders
    → AllWrite segs orders
unfolding parse_segments
parse_segments-AllWrite [] {orders = []} h = tt
parse_segments-AllWrite [] {orders = o ∷ orders} h = absurd (cc)
parse_segments-AllWrite (s ∷ segs) {orders} h = elim (Bool-cases (all_blank s)) [
  | inl e ↦ absurd (ground arith)
  | inr e ↦
      let (o, eo, h₁) = ok_steps _ (parse_line s) (rw (e, parse_segments) at h) in
      let (rest, er, h₂) = ok_steps _ (parse_segments segs) h₁ in
      let same : o ∷ rest ≡ orders = ground arith in
      subst (AllWrite (s ∷ segs)) same (parse_line-Writes s eo, parse_segments-AllWrite segs er)
]

AllWrite-parse_segments :
    (segs : List (List ℕ)) (orders : List PizzaOrder)
    → AllWrite segs orders
    → parse_segments segs ≡ ok orders
unfolding parse_segments
AllWrite-parse_segments [] [] w = refl
AllWrite-parse_segments [] (o ∷ orders) w = absurd w
AllWrite-parse_segments (s ∷ segs) [] w = absurd w
AllWrite-parse_segments (s ∷ segs) (o ∷ orders) w =
    rw (
      segment-not_blank s o w.0,
      Writes-parse_line s o w.0,
      AllWrite-parse_segments segs orders w.1,
    )

getlines-one : (s : List ℕ) → every no_end s ≡ true → all_blank s ≡ false → getlines s ≡ s ∷ []
unfolding all_blank
getlines-one [] h k = absurd (cc)
getlines-one (c ∷ s) h k = getlines-last c s h

getlines-join :
    (segs : List (List ℕ)) (orders : List PizzaOrder)
    → AllWrite segs orders
    → getlines (join segs) ≡ segs
unfolding getlines
getlines-join [] orders w = refl
getlines-join (s ∷ segs) [] w = absurd w
getlines-join (s ∷ []) (o ∷ orders) w =
    getlines-one s (segment-no_end s o w.0) (segment-not_blank s o w.0)
getlines-join (s ∷ t ∷ segs) (o ∷ orders) w = rw (
  getlines-append s (join (t ∷ segs)) (segment-no_end s o w.0),
  getlines-join (t ∷ segs) orders w.1,
)

last_not_blank-append :
    (s t : List ℕ) (d : ℕ) → last_not_blank t ≡ some d → last_not_blank (s ++ t) ≡ some d
unfolding last_not_blank
last_not_blank-append [] t d h = h
last_not_blank-append (c ∷ s) t d h = rw (last_not_blank-append s t d h)

last_not_blank-blank : (s : List ℕ) → all_blank s ≡ true → last_not_blank s ≡ none
unfolding last_not_blank all_blank
last_not_blank-blank [] h = refl
last_not_blank-blank (c ∷ s) h = ground (arith, last_not_blank-blank s)

-- A segment that is not blank has a last byte that is not blank, and it is no ';'.
closed :
    (s : List ℕ)
    → every no_end s ≡ true
    → all_blank s ≡ false
    → (d : ℕ) × (last_not_blank s ≡ some d) × ((d == b';') ≡ false)
unfolding last_not_blank all_blank
closed [] h k = absurd (cc)
closed (c ∷ s) h k = elim (Bool-cases (all_blank s)) [
  | inr e ↦ let (d, found, shut) = closed s (ground arith) e in (d, rw found, shut)
  | inl e ↦ (c, ground (arith, last_not_blank-blank s e), ground arith)
]

join-closed :
    (segs : List (List ℕ)) (orders : List PizzaOrder)
    → AllWrite segs orders
    → orders ≢ []
    → (d : ℕ) × (last_not_blank (join segs) ≡ some d) × ((d == b';') ≡ false)
join-closed [] [] w ne = absurd (ne refl)
join-closed [] (o ∷ orders) w ne = absurd w
join-closed (s ∷ segs) [] w ne = absurd w
join-closed (s ∷ []) (o ∷ orders) w ne =
    closed s (segment-no_end s o w.0) (segment-not_blank s o w.0)
join-closed (s ∷ t ∷ segs) (o ∷ []) w ne = absurd w.1
join-closed (s ∷ t ∷ segs) (o ∷ u ∷ orders) w ne =
    let (d, found, shut) = join-closed (t ∷ segs) (u ∷ orders) w.1 (λ q. cc) in
    (d, last_not_blank-append s _ d (last_not_blank-append (b';' ∷ []) _ d found), shut)

reject_empty-ok :
    (orders : List PizzaOrder) {out : List PizzaOrder}
    → reject_empty orders ≡ ok out
    → (orders ≡ out) × (out ≢ [])
unfolding reject_empty
reject_empty-ok [] h = absurd (cc)
reject_empty-ok (o ∷ orders) h = (ground arith, λ e. cc)

ok-reject_empty : (orders : List PizzaOrder) → orders ≢ [] → reject_empty orders ≡ ok orders
unfolding reject_empty
ok-reject_empty [] h = absurd (h refl)
ok-reject_empty (o ∷ orders) h = refl

parse-WritesLine :
    (line : List ℕ) (orders : List PizzaOrder) → parse line ≡ ok orders → WritesLine line orders
unfolding parse
parse-WritesLine line orders h = elim (Bool-cases (ends_open (last_not_blank line))) [
  | inl e ↦ absurd (ground arith)
  | inr e ↦
      let (found, ef, h₁) = ok_steps _ (parse_segments (getlines line)) (rw (e, parse) at h) in
      let (same, ne) = reject_empty-ok found h₁ in
      (
        getlines line,
        sym (join-getlines line e),
        subst (AllWrite (getlines line)) same (parse_segments-AllWrite (getlines line) ef),
        ne,
      )
]

WritesLine-parse :
    (line : List ℕ) (orders : List PizzaOrder) → WritesLine line orders → parse line ≡ ok orders
unfolding parse
WritesLine-parse line orders (segs, e, w, ne) =
    let (d, found, shut) = join-closed segs orders w ne in
    rw (
      e,
      found,
      shut,
      getlines-join segs orders w,
      AllWrite-parse_segments segs orders w,
      ok-reject_empty orders ne,
    )

-- `parse` returns a list of orders exactly where the line is one or more segments, separated by
-- ';', each of which, in either case of letters, writes an order of the grammar TYPE SIZE NUMBER;
-- and the orders that it returns are those written, in order.
pub parse_iff-WritesLine :
    (line : List ℕ) (orders : List PizzaOrder) → (parse line ≡ ok orders) ↔ WritesLine line orders
parse_iff-WritesLine line orders = (parse-WritesLine line orders, WritesLine-parse line orders)
