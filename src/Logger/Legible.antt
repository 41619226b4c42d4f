-- ===== src/Logger/Legible.antt =====
-- The log says what was logged.
use plazza.Prelude.{
  ℕ, ◌≡◌, refl, sym, ap, ◌∙◌, inl, List, [], ◌∷◌, ◌++◌, append_assoc, append-nil, codes, All, arith,
}
use plazza.Text.Reading.{Lacks, read_until, read_number, after_same, first_or_zero}
use plazza.Logger.{Entry, line_text, log_pizza_done, log_all}

-- The time has no bracket, and the name, which a space follows, has none of its own.
abbrev pub IsPlain : Entry → Type 0
IsPlain entry = Lacks b']' entry.time × Lacks b' ' entry.pizza_name

abbrev pub lines_text : List Entry → List ℕ
lines_text [] = []
lines_text (entry ∷ entries) = line_text entry (lines_text entries)

line_text-append :
    (entry : Entry) (s t : List ℕ) → line_text entry s ++ t ≡ line_text entry (s ++ t)
unfolding line_text
line_text-append entry s t = simp append_assoc

log_all-lines :
    (entries : List Entry) (file : List ℕ) → log_all entries file ≡ file ++ lines_text entries
unfolding log_all log_pizza_done
log_all-lines [] file = sym (append-nil file)
log_all-lines (entry ∷ entries) file =
    log_all-lines entries _
    ∙ append_assoc file (line_text entry []) (lines_text entries)
    ∙ ap (λ l. file ++ l) (line_text-append entry [] (lines_text entries))

line-reads :
    (x y : Entry) (s t : List ℕ)
    → IsPlain x
    → IsPlain y
    → line_text x s ≡ line_text y t
    → (x ≡ y) × (s ≡ t)
unfolding line_text
line-reads x y s t h k e =
    let (time, e₁) = read_until b']' x.time y.time _ _ h.0 k.0 (after_same (codes "[") _ _ e) in
    let (id, e₂) =
      read_number b' ' (inl (omega arith)) x.kitchen_id y.kitchen_id _ _
        (after_same (codes " Kitchen #") _ _ e₁) in
    let (name, e₃) =
      read_until b' ' x.pizza_name y.pizza_name _ _ h.1 k.1 (after_same (codes "- ") _ _ e₂) in
    (cc, after_same (codes "done\n") s t e₃)

lines-reads :
    (xs ys : List Entry) → All IsPlain xs → All IsPlain ys → lines_text xs ≡ lines_text ys → xs ≡ ys
unfolding line_text
lines-reads [] [] h k e = refl
lines-reads [] (y ∷ ys) h k e = absurd (let f = ap first_or_zero e in omega arith)
lines-reads (x ∷ xs) [] h k e = absurd (let f = ap first_or_zero e in omega arith)
lines-reads (x ∷ xs) (y ∷ ys) h k e =
    let (same, after) = line-reads x y _ _ h.0 k.0 e in
    let rest = lines-reads xs ys h.1 k.1 after in cc

-- Two runs that append to the same file and leave the same text have logged the same pizzas of the
-- same kitchens at the same times and in the same order, where no time has a closing bracket and
-- no name a space.
pub log_all-tells :
    (xs ys : List Entry) (file : List ℕ)
    → All IsPlain xs
    → All IsPlain ys
    → log_all xs file ≡ log_all ys file
    → xs ≡ ys
log_all-tells xs ys file h k e =
    lines-reads xs ys h k
      (after_same file _ _ (sym (log_all-lines xs file) ∙ e ∙ log_all-lines ys file))
