-- ===== src/Parser/Found.antt =====
-- The pattern of `parseLine` finds the words of the grammar in a text: the lazy name and the order
-- of the sizes find the intended ones.
use plazza.Prelude.{
  ℕ, ◌≡◌, inl, inr, Bool, true, false, List, [], ◌∷◌, ◌++◌, append-nil, append_assoc, arith, some,
}
use plazza.Regex.{Regex, Cont, exec, exec_star, lazy_plus, seq, group, star}
use plazza.Regex.Meaning.{every}
use plazza.Parser.{tolower, is_space, is_letter, is_digit, is_char, size_pattern, number_pattern}
use plazza.Parser.Grammar.{IsTypeName, IsSizeName, IsNumber}

-- The text does not begin with a byte of the class.
abbrev Stops : (ℕ → Bool) → List ℕ → Type 0
Stops p [] = Unit {0}
Stops p (c ∷ s) = p c ≡ false

-- A greedy star takes a run of its class at once, if the rest then succeeds.
pub exec_star-run :
    (p : ℕ → Bool) (k : Cont) (groups : List (List ℕ)) (run rest : List ℕ) {out : List (List ℕ)}
    → every p run ≡ true
    → Stops p rest
    → k run groups rest ≡ some out
    → exec_star p k groups (run ++ rest) ≡ some out
unfolding exec_star
exec_star-run p k groups [] [] all stop h = h
exec_star-run p k groups [] (c ∷ rest) all stop h = rw stop h
exec_star-run p k groups (c ∷ run) rest all stop h =
    let yes_c : p c ≡ true = ground arith in
    rw (yes_c, exec_star-run p (λ t. k (c ∷ t)) groups run rest (ground arith) stop h)

Stops-append :
    (p q : ℕ → Bool)
    → ((c : ℕ) → q c ≡ true → p c ≡ false)
    → (run rest : List ℕ) → every q run ≡ true
    → Stops p rest
    → Stops p (run ++ rest)
Stops-append p q h [] rest all stop = stop
Stops-append p q h (c ∷ run) rest all stop = h c (ground arith)

digit-not_space : (c : ℕ) → is_space c ≡ true → is_digit c ≡ false
unfolding is_space is_digit
digit-not_space c h = ground arith

-- A continuation that succeeds at the end of the text, as `at_end` does behind any text taken.
abbrev pub Ends : Cont → Type 0
Ends k = (taken : List ℕ) (groups : List (List ℕ)) → k taken groups [] ≡ some groups

spaces_to_end :
    (k : Cont) (groups : List (List ℕ)) (trail : List ℕ)
    → Ends k
    → every is_space trail ≡ true
    → exec_star is_space k groups trail ≡ some groups
spaces_to_end k groups trail ends space =
    rw (append-nil trail) at (exec_star-run is_space k groups trail [] space tt (ends trail groups))

-- The pattern from the number on, from the white space before it on, and so on to its start.
number_part :
    (k : Cont) (groups : List (List ℕ)) (number trail : List ℕ) {q : ℕ}
    → Ends k
    → IsNumber number q
    → every is_space trail ≡ true
    → exec (seq (group number_pattern) (star is_space)) k groups (number ++ trail)
      ≡ some (groups ++ number ∷ [])
unfolding exec is_char tolower
number_part k groups number trail ends n space =
    rw (n.split, n.positive)
      (exec_star-run is_digit _ groups n.more trail n.digits stop
        (spaces_to_end _ _ trail (λ t. ends _) space))
  where
    stop : Stops is_digit trail
    stop =
        rw (append-nil trail) at (Stops-append is_digit is_space digit-not_space trail [] space tt)

abbrev after_size : Regex
after_size = seq (star is_space) (seq (group number_pattern) (star is_space))

gap_part :
    (k : Cont) (groups : List (List ℕ)) (gap number trail : List ℕ) {q : ℕ}
    → Ends k
    → IsNumber number q
    → every is_space gap ≡ true
    → every is_space trail ≡ true
    → exec after_size k groups (gap ++ (number ++ trail)) ≡ some (groups ++ number ∷ [])
unfolding exec is_space
gap_part k groups gap number trail ends n space_gap space_trail =
    exec_star-run is_space _ groups gap (number ++ trail) space_gap (rw n.split) (
      number_part (λ more. k (gap ++ more)) groups number trail (λ t. ends (gap ++ t)) n
        space_trail)

-- A size is read in the order of the alternatives; none of them is a prefix that goes wrong.
size_part :
    (k : Cont) (groups : List (List ℕ)) (letters rest : List ℕ) (out : List (List ℕ)) {z : ℕ}
    → IsSizeName letters z
    → k letters (groups ++ letters ∷ []) rest ≡ some out
    → exec (group size_pattern) k groups (letters ++ rest) ≡ some out
unfolding exec is_char tolower
size_part k groups letters rest out (inl (e, _)) h = rw e (rw (rw e at h))
size_part k groups letters rest out (inr (inl (e, _))) h = rw e (rw (rw e at h))
size_part k groups letters rest out (inr (inr (inl (e, _)))) h = rw e (rw (rw e at h))
size_part k groups letters rest out (inr (inr (inr (inl (e, _))))) h = rw e (rw (rw e at h))
size_part k groups letters rest out (inr (inr (inr (inr (e, _))))) h = rw e (rw (rw e at h))

abbrev after_name : Regex
after_name = seq (star is_space) (seq (group size_pattern) after_size)

size-not_space :
    (letters rest : List ℕ) {z : ℕ} → IsSizeName letters z → Stops is_space (letters ++ rest)
unfolding is_space
size-not_space letters rest (inl (e, _)) = rw e
size-not_space letters rest (inr (inl (e, _))) = rw e
size-not_space letters rest (inr (inr (inl (e, _)))) = rw e
size-not_space letters rest (inr (inr (inr (inl (e, _))))) = rw e
size-not_space letters rest (inr (inr (inr (inr (e, _))))) = rw e

pub after_name_part :
    (k : Cont) (groups : List (List ℕ)) (gap letters gap' number trail : List ℕ) {z q : ℕ}
    → Ends k
    → IsSizeName letters z
    → IsNumber number q
    → every is_space gap ≡ true
    → every is_space gap' ≡ true
    → every is_space trail ≡ true
    → exec after_name k groups (gap ++ (letters ++ (gap' ++ (number ++ trail))))
      ≡ some (groups ++ (letters ∷ number ∷ []))
unfolding exec
after_name_part k groups gap letters gap' number trail ends sz n sg sg' st =
    exec_star-run is_space _ groups gap _ sg (size-not_space letters _ sz) (
      size_part (λ t. exec after_size (λ u. k (gap ++ (t ++ u)))) groups letters
        (gap' ++ (number ++ trail)) (groups ++ (letters ∷ number ∷ [])) sz
        (rw (← append_assoc groups (letters ∷ []) (number ∷ [])) (
          gap_part (λ u. k (gap ++ (letters ++ u))) (groups ++ letters ∷ []) gap' number trail
            (λ t. ends (gap ++ (letters ++ t))) n sg' st)))

-- No proper beginning of a name lets the rest of the pattern succeed, whatever follows the name.
abbrev NameFound : List ℕ → Cont → List ℕ → Type 0
NameFound name k rest =
    (out : List (List ℕ))
    → exec after_name (λ t. k (name ++ t)) (name ∷ []) rest ≡ some out
    → exec (seq (group (lazy_plus is_letter)) after_name) k [] (name ++ rest) ≡ some out

pub name_part : (k : Cont) (name rest : List ℕ) {t : ℕ} → IsTypeName name t → NameFound name k rest
unfolding exec is_char tolower is_letter is_space
name_part k name rest (inl (e, _)) = rw e (λ out h. rw h)
name_part k name rest (inr (inl (e, _))) = rw e (λ out h. rw h)
name_part k name rest (inr (inr (inl (e, _)))) = rw e (λ out h. rw h)
name_part k name rest (inr (inr (inr (e, _)))) = rw e (λ out h. rw h)

pub type-not_space :
    (name rest : List ℕ) {t : ℕ} → IsTypeName name t → Stops is_space (name ++ rest)
unfolding is_space
type-not_space name rest (inl (e, _)) = rw e
type-not_space name rest (inr (inl (e, _))) = rw e
type-not_space name rest (inr (inr (inl (e, _)))) = rw e
type-not_space name rest (inr (inr (inr (e, _)))) = rw e
