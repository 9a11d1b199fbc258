-- ===== src/Bridge/Lines.antt =====
-- What the line reader of a spool does: nothing is lost, and all lines but the last are complete.
use mathlib.Core.List.{append_assoc}
use bot_ea.Base.{
  ℕ, suc, ◌+◌, ◌≡◌, refl, ap, sym, ◌∙◌, ◌≢◌, Bool, false, List, [], ◌∷◌, ◌++◌, ◌||◌, ◌==◌,
  if◌then◌else◌, length, drop, length-append, drop-length-append, arith, Bool-cases, inl, inr,
}
use bot_ea.Bridge.Store.{cons_line, lines, ends_line}

abbrev pub has_newline : List ℕ → Bool
has_newline [] = false
has_newline (c ∷ cs) = c == 10 || has_newline cs

abbrev pub newlines : List ℕ → ℕ
newlines [] = 0
newlines (c ∷ cs) = let rest = newlines cs in if c == 10 then suc rest else rest

abbrev pub joined : List (List ℕ) → List ℕ
joined [] = []
joined (l ∷ ls) = l ++ joined ls

-- The lines from the first incomplete one on.
abbrev pub unfinished : List (List ℕ) → List (List ℕ)
unfinished [] = []
unfinished (l ∷ ls) = let rest = unfinished ls in if ends_line l then rest else l ∷ ls

-- The complete lines before it.
abbrev pub finished : List (List ℕ) → List (List ℕ)
finished [] = []
finished (l ∷ ls) = let rest = l ∷ finished ls in if ends_line l then rest else []

joined-cons_line : (c : ℕ) (ls : List (List ℕ)) → joined (cons_line c ls) ≡ c ∷ joined ls
unfolding cons_line
joined-cons_line c [] = refl
joined-cons_line c (l ∷ ls) = refl

-- The lines of a text, joined, are the text.
pub joined-lines : (cs : List ℕ) → joined (lines cs) ≡ cs
unfolding lines
joined-lines [] = refl
joined-lines (c ∷ cs) = elim (Bool-cases (c == 10)) [
  | inl e ↦ rw e (ground (arith, joined-lines cs))
  | inr n ↦ rw (n, joined-cons_line) (ap (λ r. c ∷ r) (joined-lines cs))
]

-- No line is empty.
abbrev NoEmpty : List (List ℕ) → Type 0
NoEmpty [] = Unit
NoEmpty (l ∷ ls) = (l ≢ []) × NoEmpty ls

NoEmpty-cons_line : (c : ℕ) (ls : List (List ℕ)) → NoEmpty ls → NoEmpty (cons_line c ls)
unfolding cons_line
NoEmpty-cons_line c [] h = (λ e. cc, tt)
NoEmpty-cons_line c (l ∷ ls) h = (λ e. cc, h.1)

NoEmpty-lines : (cs : List ℕ) → NoEmpty (lines cs)
unfolding lines
NoEmpty-lines [] = tt
NoEmpty-lines (c ∷ cs) = elim (Bool-cases (c == 10)) [
  | inl e ↦ rw e ((λ p. cc), NoEmpty-lines cs)
  | inr n ↦ rw n (NoEmpty-cons_line c (lines cs) (NoEmpty-lines cs))
]

ends_line-cons : (c : ℕ) (l : List ℕ) → l ≢ [] → ends_line (c ∷ l) ≡ ends_line l
unfolding ends_line
ends_line-cons c [] h = absurd (h refl)
ends_line-cons c (d ∷ l) h = refl

module _ (c : ℕ) (other : (c == 10) ≡ false) where
  unfinished-cons_line :
      (ls : List (List ℕ))
      → NoEmpty ls
      → has_newline (joined (unfinished ls)) ≡ false
      → has_newline (joined (unfinished (cons_line c ls))) ≡ false
  unfolding cons_line ends_line
  unfinished-cons_line [] h p = ground arith
  unfinished-cons_line (l ∷ ls) h p = ground (arith, ends_line-cons c l h.0)

  length-finished-cons_line :
      (ls : List (List ℕ)) → NoEmpty ls → length (finished (cons_line c ls)) ≡ length (finished ls)
  unfolding cons_line ends_line
  length-finished-cons_line [] h = ground arith
  length-finished-cons_line (l ∷ ls) h = ground (arith, ends_line-cons c l h.0)

  lines-append_step :
      (ds : List ℕ) (ls : List (List ℕ))
      → NoEmpty ls
      → cons_line c (finished ls ++ lines (joined (unfinished ls) ++ ds))
        ≡ finished (cons_line c ls) ++ lines (joined (unfinished (cons_line c ls)) ++ ds)
  unfolding cons_line ends_line lines
  lines-append_step ds [] h = ground arith
  lines-append_step ds (l ∷ ls) h = ground (arith, ends_line-cons c l h.0)

-- What follows the last newline holds none.
pub has_newline-unfinished : (cs : List ℕ) → has_newline (joined (unfinished (lines cs))) ≡ false
unfolding lines ends_line
has_newline-unfinished [] = refl
has_newline-unfinished (c ∷ cs) = elim (Bool-cases (c == 10)) [
  | inl e ↦ rw e (has_newline-unfinished cs)
  | inr n ↦
      rw n (unfinished-cons_line c n (lines cs) (NoEmpty-lines cs) (has_newline-unfinished cs))
]

-- There is a complete line for each newline.
pub length-finished : (cs : List ℕ) → length (finished (lines cs)) ≡ newlines cs
unfolding lines ends_line
length-finished [] = refl
length-finished (c ∷ cs) = elim (Bool-cases (c == 10)) [
  | inl e ↦ rw e (ap suc (length-finished cs))
  | inr n ↦ rw n (length-finished-cons_line c n (lines cs) (NoEmpty-lines cs) ∙ length-finished cs)
]

-- More bytes complete the last line, and leave the complete ones alone.
pub lines-append :
    (cs ds : List ℕ)
    → lines (cs ++ ds) ≡ finished (lines cs) ++ lines (joined (unfinished (lines cs)) ++ ds)
unfolding lines ends_line
lines-append [] ds = refl
lines-append (c ∷ cs) ds = elim (Bool-cases (c == 10)) [
  | inl e ↦ rw e (ap (λ r. (10 ∷ []) ∷ r) (lines-append cs ds))
  | inr n ↦ rw (n, lines-append cs ds) (lines-append_step c n ds (lines cs) (NoEmpty-lines cs))
]

pub joined-finished-unfinished :
    (ls : List (List ℕ)) → joined (finished ls) ++ joined (unfinished ls) ≡ joined ls
joined-finished-unfinished [] = refl
joined-finished-unfinished (l ∷ ls) = elim (Bool-cases (ends_line l)) [
  | inl e ↦ rw e (
      append_assoc l (joined (finished ls)) (joined (unfinished ls))
      ∙ ap (λ r. l ++ r) (joined-finished-unfinished ls))
  | inr n ↦ rw n
]

-- The bytes of the complete lines, and those behind them.
abbrev pub closed_part : List ℕ → List ℕ
closed_part cs = joined (finished (lines cs))

abbrev pub open_part : List ℕ → List ℕ
open_part cs = joined (unfinished (lines cs))

pub closed_part-append-open_part : (cs : List ℕ) → closed_part cs ++ open_part cs ≡ cs
closed_part-append-open_part cs = joined-finished-unfinished (lines cs) ∙ joined-lines cs

pub drop-closed_part : (cs : List ℕ) → drop (length (closed_part cs)) cs ≡ open_part cs
drop-closed_part cs =
    ap (drop (length (closed_part cs))) (sym (closed_part-append-open_part cs))
    ∙ drop-length-append (closed_part cs) (open_part cs)

pub length-closed_part : (cs : List ℕ) → length (closed_part cs) + length (open_part cs) ≡ length cs
length-closed_part cs =
    sym (length-append (closed_part cs) (open_part cs))
    ∙ ap length (closed_part-append-open_part cs)

pub newlines_none : (cs : List ℕ) → has_newline cs ≡ false → newlines cs ≡ 0
newlines_none [] h = refl
newlines_none (c ∷ cs) h = ground (arith, newlines_none cs)
