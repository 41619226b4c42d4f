-- ===== src/Parser/Segments.antt =====
-- The segments that getline delivers, and the line that they make up.
use plazza.Prelude.{
  ℕ, ◌≡◌, ◌≢◌, refl, inl, inr, Bool, true, false, not, List, [], ◌∷◌, ◌++◌, arith, Bool-cases, ◌==◌,
  ==_iff,
}
use plazza.Regex.Meaning.{every}
use plazza.Parser.{is_blank, last_not_blank, extend_first, getlines, ends_open}

-- Segments put together with ';' between them.
abbrev pub join : List (List ℕ) → List ℕ
join [] = []
join (s ∷ []) = s
join (s ∷ t ∷ segments) = s ++ (b';' ∷ join (t ∷ segments))

-- getline takes the joined segments apart.

abbrev pub no_end : ℕ → Bool
no_end c = not (c == b';')

pub getlines-last :
    (c : ℕ) (s : List ℕ) → every no_end (c ∷ s) ≡ true → getlines (c ∷ s) ≡ (c ∷ s) ∷ []
unfolding getlines
getlines-last c [] h = ground arith
getlines-last c (d ∷ s) h = ground (arith, getlines-last d s)

pub getlines-append :
    (s rest : List ℕ) → every no_end s ≡ true → getlines (s ++ (b';' ∷ rest)) ≡ s ∷ getlines rest
unfolding getlines
getlines-append [] rest h = refl
getlines-append (c ∷ s) rest h = ground (arith, getlines-append s rest)

extend_first-ne-nil : (c : ℕ) (segs : List (List ℕ)) → extend_first c segs ≢ []
unfolding extend_first
extend_first-ne-nil c [] h = cc
extend_first-ne-nil c (s ∷ segs) h = cc

getlines-ne-nil : (c : ℕ) (s : List ℕ) → getlines (c ∷ s) ≢ []
unfolding getlines
getlines-ne-nil c s h = ground (arith, extend_first-ne-nil c (getlines s))

join-empty_first : (segs : List (List ℕ)) → segs ≢ [] → join ([] ∷ segs) ≡ b';' ∷ join segs
join-empty_first [] h = absurd (h refl)
join-empty_first (s ∷ segs) h = refl

join-extend_first : (c : ℕ) (segs : List (List ℕ)) → join (extend_first c segs) ≡ c ∷ join segs
unfolding extend_first
join-extend_first c [] = refl
join-extend_first c (s ∷ []) = refl
join-extend_first c (s ∷ t ∷ segs) = refl

ends_open-tail :
    (c : ℕ) (line : List ℕ)
    → ends_open (last_not_blank (c ∷ line)) ≡ false
    → ends_open (last_not_blank line) ≡ false
unfolding last_not_blank
ends_open-tail c line h = ground arith

last_of_one : (c : ℕ) → ends_open (last_not_blank (c ∷ [])) ≡ false → (c == b';') ≡ false
unfolding last_not_blank is_blank
last_of_one c h = ground arith

-- A line that does not end in ';' is its segments put together again.
pub join-getlines :
    (line : List ℕ) → ends_open (last_not_blank line) ≡ false → join (getlines line) ≡ line
unfolding getlines
join-getlines [] h = refl
join-getlines (c ∷ []) h = ground (arith, h, last_of_one c)
join-getlines (c ∷ d ∷ line) h = elim (Bool-cases (c == b';')) [
  | inl e ↦ rw (
    e,
    join-empty_first (getlines (d ∷ line)) (getlines-ne-nil d line),
    join-getlines (d ∷ line) (ends_open-tail c (d ∷ line) h),
    (==_iff c b';').0 e,
  )
  | inr e ↦ rw (
    e,
    join-extend_first c (getlines (d ∷ line)),
    join-getlines (d ∷ line) (ends_open-tail c (d ∷ line) h),
  )
]
