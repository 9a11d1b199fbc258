-- ===== src/Base/Split.antt =====
-- `str.split` by one character, `str.join`, and equality of texts.
use Prim.Native.Nat.{ℕ}
use mathlib.Core.Path.{◌≡◌, refl, ap, ◌∙◌}
use mathlib.Core.Logic.{inl, inr}
use mathlib.Core.Bool.{Bool, true, false, ◌&&◌, ◌||◌}
use mathlib.Core.List.{List, [], ◌∷◌, ◌++◌}
use native.Mathlib.Omega.{arith}
use bot_ea.Base.Tests.{◌==◌, if◌then◌else◌, Bool-cases}
use bot_ea.Base.Text.{Text}

abbrev pub same_text : Text → Text → Bool
same_text [] [] = true
same_text [] (d ∷ ds) = false
same_text (c ∷ cs) [] = false
same_text (c ∷ cs) (d ∷ ds) = c == d && same_text cs ds

pub same_text→eq : (s t : Text) → same_text s t ≡ true → s ≡ t
same_text→eq [] [] h = refl
same_text→eq [] (d ∷ ds) h = cc
same_text→eq (c ∷ cs) [] h = cc
same_text→eq (c ∷ cs) (d ∷ ds) h = ground (arith, same_text→eq cs ds)

pub same_text_refl : (s : Text) → same_text s s ≡ true
same_text_refl [] = refl
same_text_refl (c ∷ cs) = ground (arith, same_text_refl cs)

abbrev cons_part : ℕ → List Text → List Text
cons_part c [] = (c ∷ []) ∷ []
cons_part c (p ∷ ps) = (c ∷ p) ∷ ps

-- `text.split(sep)`
unfoldable pub split : ℕ → Text → List Text
split sep [] = [] ∷ []
split sep (c ∷ cs) = let rest = split sep cs in if c == sep then [] ∷ rest else cons_part c rest

-- `sep.join(parts)`
unfoldable pub join : ℕ → List Text → Text
join sep [] = []
join sep (p ∷ []) = p
join sep (p ∷ q ∷ ps) = p ++ (sep ∷ join sep (q ∷ ps))

abbrev pub has_char : ℕ → Text → Bool
has_char k [] = false
has_char k (c ∷ cs) = c == k || has_char k cs

abbrev pub Free : ℕ → List Text → Type 0
Free k [] = Unit
Free k (p ∷ ps) = (has_char k p ≡ false) × Free k ps

split_last : (sep : ℕ) (p : Text) → has_char sep p ≡ false → split sep p ≡ p ∷ []
unfolding split
split_last sep [] h = refl
split_last sep (c ∷ cs) h = ground (arith, split_last sep cs)

split_first :
    (sep : ℕ) (p rest : Text)
    → has_char sep p ≡ false
    → split sep (p ++ (sep ∷ rest)) ≡ p ∷ split sep rest
unfolding split
split_first sep [] rest h = ground arith
split_first sep (c ∷ cs) rest h = ground (arith, split_first sep cs rest)

-- Parts that are free of the separator come back.
pub split-join :
    (sep : ℕ) (p : Text) (ps : List Text)
    → Free sep (p ∷ ps)
    → split sep (join sep (p ∷ ps)) ≡ p ∷ ps
unfolding join
split-join sep p [] h = split_last sep p h.0
split-join sep p (q ∷ ps) h =
    split_first sep p (join sep (q ∷ ps)) h.0 ∙ ap (λ r. p ∷ r) (split-join sep q ps h.1)

Free-cons_part : (k c : ℕ) (ps : List Text) → (c == k) ≡ false → Free k ps → Free k (cons_part c ps)
Free-cons_part k c [] n h = ground arith
Free-cons_part k c (p ∷ ps) n h = ground arith

-- What is split off holds no separator.
pub Free-split : (sep : ℕ) (s : Text) → Free sep (split sep s)
unfolding split
Free-split sep [] = (refl, tt)
Free-split sep (c ∷ cs) = elim (Bool-cases (c == sep)) [
  | inl e ↦ rw e (refl, Free-split sep cs)
  | inr n ↦ rw n (Free-cons_part sep c (split sep cs) n (Free-split sep cs))
]
