-- ===== src/Base/Strip.antt =====
-- `strip` of a text that ends in one newline, and `join` at its last part.
use mathlib.Core.Path.{◌≡◌, refl, sym, ap, ◌∙◌}
use mathlib.Core.Bool.{false}
use mathlib.Core.List.{List, [], ◌∷◌, ◌++◌, reverse, reverse-append, reverse-reverse, append_assoc}
use Prim.Native.Nat.{ℕ}
use bot_ea.Base.Text.{Text, strip, lstrip, is_space}
use bot_ea.Base.Split.{join}

lstrip_stops : (c : ℕ) (cs : Text) → is_space c ≡ false → lstrip (c ∷ cs) ≡ c ∷ cs
unfolding lstrip
lstrip_stops c cs h = rw h

lstrip_newline : (cs : Text) → lstrip (10 ∷ cs) ≡ lstrip cs
unfolding lstrip is_space
lstrip_newline cs = refl

-- A text that begins and ends in other characters than white space loses one added newline.
pub strip_newline :
    (c z : ℕ) (cs u : Text)
    → is_space c ≡ false
    → is_space z ≡ false
    → c ∷ cs ≡ u ++ (z ∷ [])
    → strip ((c ∷ cs) ++ (10 ∷ [])) ≡ c ∷ cs
unfolding strip
strip_newline c z cs u hc hz e =
    ap (λ t. reverse (lstrip (reverse t))) (lstrip_stops c (cs ++ (10 ∷ [])) hc)
    ∙ ap (λ t. reverse (lstrip t)) (reverse-append (c ∷ cs) (10 ∷ []))
    ∙ ap reverse (lstrip_newline (reverse (c ∷ cs)))
    ∙ ap (λ t. reverse (lstrip (reverse t))) e
    ∙ ap (λ t. reverse (lstrip t)) (reverse-append u (z ∷ []))
    ∙ ap reverse (lstrip_stops z (reverse u) hz)
    ∙ ap reverse (sym (reverse-append u (z ∷ [])))
    ∙ reverse-reverse (u ++ (z ∷ []))
    ∙ sym e

pub join-append_last :
    (sep : ℕ) (ps : List Text) (v w : Text)
    → join sep (ps ++ ((v ++ w) ∷ [])) ≡ join sep (ps ++ (v ∷ [])) ++ w
unfolding join
join-append_last sep [] v w = refl
join-append_last sep (p ∷ []) v w = sym (append_assoc p (sep ∷ v) w)
join-append_last sep (p ∷ q ∷ ps) v w =
    ap (λ t. p ++ (sep ∷ t)) (join-append_last sep (q ∷ ps) v w)
    ∙ sym (append_assoc p (sep ∷ join sep (q ∷ (ps ++ (v ∷ [])))) w)
