-- ===== src/Parser/Alphabet.antt =====
-- The text of an order holds no ';' and is not blank, so `parse` takes it for one segment.
use plazza.Prelude.{
  ℕ, ◌≡◌, ◌≢◌, refl, inl, inr, Bool, true, false, ◌&&◌, List, [], ◌∷◌, ◌++◌, arith,
}
use plazza.Pizza.{PizzaOrder}
use plazza.Regex.Meaning.{every}
use plazza.Parser.{tolower, to_lower, is_space, is_digit, is_positive_digit, is_blank, all_blank}
use plazza.Parser.Grammar.{IsTypeName, IsSizeName, IsNumber, Writes}
use plazza.Parser.Segments.{no_end}

-- An order's text has no ';' and is not blank.

every-append : (p : ℕ → Bool) (s t : List ℕ) → every p (s ++ t) ≡ (every p s && every p t)
every-append p [] t = refl
every-append p (c ∷ s) t = ground (arith, every-append p s t)

every_mono :
    (p q : ℕ → Bool)
    → ((c : ℕ) → p c ≡ true → q c ≡ true)
    → (s : List ℕ) → every p s ≡ true
    → every q s ≡ true
every_mono p q h [] all = refl
every_mono p q h (c ∷ s) all = ground (arith, h c, every_mono p q h s)

space-no_end : (c : ℕ) → is_space c ≡ true → no_end c ≡ true
unfolding is_space
space-no_end c h = ground arith

digit-no_end : (c : ℕ) → is_digit c ≡ true → no_end c ≡ true
unfolding is_digit
digit-no_end c h = ground arith

type-no_end : (name : List ℕ) {t : ℕ} → IsTypeName name t → every no_end name ≡ true
type-no_end name (inl (e, _)) = rw e
type-no_end name (inr (inl (e, _))) = rw e
type-no_end name (inr (inr (inl (e, _)))) = rw e
type-no_end name (inr (inr (inr (e, _)))) = rw e

type-not_blank : (name : List ℕ) {t : ℕ} → IsTypeName name t → every is_blank name ≡ false
unfolding is_blank
type-not_blank name (inl (e, _)) = rw e
type-not_blank name (inr (inl (e, _))) = rw e
type-not_blank name (inr (inr (inl (e, _)))) = rw e
type-not_blank name (inr (inr (inr (e, _)))) = rw e

size-no_end : (letters : List ℕ) {t : ℕ} → IsSizeName letters t → every no_end letters ≡ true
size-no_end name (inl (e, _)) = rw e
size-no_end name (inr (inl (e, _))) = rw e
size-no_end name (inr (inr (inl (e, _)))) = rw e
size-no_end name (inr (inr (inr (inl (e, _))))) = rw e
size-no_end name (inr (inr (inr (inr (e, _))))) = rw e

number-no_end : (number : List ℕ) {q : ℕ} → IsNumber number q → every no_end number ≡ true
unfolding is_positive_digit
number-no_end number n =
    rw n.split (ground (arith, n.positive, every_mono is_digit no_end digit-no_end n.more n.digits))

Writes-no_end : (text : List ℕ) (o : PizzaOrder) → Writes text o → every no_end text ≡ true
Writes-no_end text o w = simp (
  w.split,
  every-append,
  spaces w.lead w.lead_space,
  type-no_end w.name w.named,
  spaces w.gap w.gap_space,
  size-no_end w.letters w.sized,
  spaces w.gap' w.gap'_space,
  number-no_end w.number w.counted,
  spaces w.trail w.trail_space,
)
  where
    spaces : (s : List ℕ) → every is_space s ≡ true → every no_end s ≡ true
    spaces = every_mono is_space no_end space-no_end

every-append_left : (p : ℕ → Bool) (s t : List ℕ) → every p (s ++ t) ≡ true → every p s ≡ true
every-append_left p s t h = ground (arith, every-append p s t)

every-append_right : (p : ℕ → Bool) (s t : List ℕ) → every p (s ++ t) ≡ true → every p t ≡ true
every-append_right p s t h = ground (arith, every-append p s t)

Writes-not_blank : (text : List ℕ) (o : PizzaOrder) → Writes text o → every is_blank text ≢ true
Writes-not_blank text o w h =
    let from_name = every-append_right is_blank w.lead _ (rw w.split at h) in
    let name = every-append_left is_blank w.name _ from_name in cc (type-not_blank w.name w.named)

-- The same of the text in its own case.
every-lower :
    (p : ℕ → Bool)
    → ((c : ℕ) → p (tolower c) ≡ p c)
    → (s : List ℕ) → every p (to_lower s) ≡ every p s
unfolding to_lower
every-lower p h [] = refl
every-lower p h (c ∷ s) = rw (h c, every-lower p h s)

no_end-tolower : (c : ℕ) → no_end (tolower c) ≡ no_end c
unfolding tolower
no_end-tolower c = ground arith

is_blank-tolower : (c : ℕ) → is_blank (tolower c) ≡ is_blank c
unfolding tolower is_blank
is_blank-tolower c = ground arith

all_blank-eq : (s : List ℕ) → all_blank s ≡ every is_blank s
unfolding all_blank
all_blank-eq [] = refl
all_blank-eq (c ∷ s) = rw (all_blank-eq s)

module _ (s : List ℕ) (o : PizzaOrder) (w : Writes (to_lower s) o) where
  pub segment-no_end : every no_end s ≡ true
  segment-no_end = rw (← every-lower no_end no_end-tolower s) (Writes-no_end (to_lower s) o w)

  pub segment-not_blank : all_blank s ≡ false
  segment-not_blank = ground (
    arith,
    Writes-not_blank (to_lower s) o w,
    every-lower is_blank is_blank-tolower s,
    all_blank-eq s,
  )
