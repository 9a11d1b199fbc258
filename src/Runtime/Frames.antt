-- ===== src/Runtime/Frames.antt =====
-- Timeframes are told apart by their index, and cursors are found by their timeframe.
use bot_ea.Base.{
  ℕ, ◌≡◌, refl, ap, ◌∙◌, inl, inr, Bool, true, false, Option, some, [], ◌∷◌, ◌++◌, leb,
  if◌then◌else◌, Bool-cases,
}
use bot_ea.Runtime.Time.{Timeframe, d1, h1, m15, m5, m1, same_frame}
use bot_ea.Runtime.State.{Opens}
use bot_ea.Runtime.Fast.{open_of}
use bot_ea.Runtime.Bars.{index_of, without, insert_cursor, sort_cursors}

pub same_frame→eq : (a b : Timeframe) → same_frame a b ≡ true → a ≡ b
same_frame→eq d1 d1 h = refl
same_frame→eq d1 h1 h = cc
same_frame→eq d1 m15 h = cc
same_frame→eq d1 m5 h = cc
same_frame→eq d1 m1 h = cc
same_frame→eq h1 d1 h = cc
same_frame→eq h1 h1 h = refl
same_frame→eq h1 m15 h = cc
same_frame→eq h1 m5 h = cc
same_frame→eq h1 m1 h = cc
same_frame→eq m15 d1 h = cc
same_frame→eq m15 h1 h = cc
same_frame→eq m15 m15 h = refl
same_frame→eq m15 m5 h = cc
same_frame→eq m15 m1 h = cc
same_frame→eq m5 d1 h = cc
same_frame→eq m5 h1 h = cc
same_frame→eq m5 m15 h = cc
same_frame→eq m5 m5 h = refl
same_frame→eq m5 m1 h = cc
same_frame→eq m1 d1 h = cc
same_frame→eq m1 h1 h = cc
same_frame→eq m1 m15 h = cc
same_frame→eq m1 m5 h = cc
same_frame→eq m1 m1 h = refl

pub same_frame_refl : (a : Timeframe) → same_frame a a ≡ true
same_frame_refl d1 = refl
same_frame_refl h1 = refl
same_frame_refl m15 = refl
same_frame_refl m5 = refl
same_frame_refl m1 = refl

not_below : (a b : Timeframe) → leb (index_of a) (index_of b) ≡ false → same_frame a b ≡ false
not_below d1 d1 h = cc
not_below d1 h1 h = cc
not_below d1 m15 h = cc
not_below d1 m5 h = cc
not_below d1 m1 h = cc
not_below h1 d1 h = refl
not_below h1 h1 h = cc
not_below h1 m15 h = cc
not_below h1 m5 h = cc
not_below h1 m1 h = cc
not_below m15 d1 h = refl
not_below m15 h1 h = refl
not_below m15 m15 h = cc
not_below m15 m5 h = cc
not_below m15 m1 h = cc
not_below m5 d1 h = refl
not_below m5 h1 h = refl
not_below m5 m15 h = refl
not_below m5 m5 h = cc
not_below m5 m1 h = cc
not_below m1 d1 h = refl
not_below m1 h1 h = refl
not_below m1 m15 h = refl
not_below m1 m5 h = refl
not_below m1 m1 h = cc

abbrev pub found : Bool → ℕ → Option ℕ → Option ℕ
found b t o = if b then some t else o

open_of-insert_cursor :
    (u tf : Timeframe) (t : ℕ) (cs : Opens)
    → open_of u (insert_cursor (tf, t) cs) ≡ found (same_frame u tf) t (open_of u cs)
unfolding open_of insert_cursor
open_of-insert_cursor u tf t [] = refl
open_of-insert_cursor u tf t ((v, d) ∷ cs) = elim (Bool-cases (leb (index_of tf) (index_of v))) [
  | inl e ↦ rw e refl
  | inr e ↦ elim (Bool-cases (same_frame u tf)) [
    | inl own ↦
        let same = same_frame→eq u tf own in
        let other : same_frame u v ≡ false = rw same (not_below tf v e) in
        rw (e, other, own) (open_of-insert_cursor u tf t cs ∙ rw own refl)
    | inr other ↦
        rw (e, other)
          (ap (found (same_frame u v) d) (open_of-insert_cursor u tf t cs ∙ rw other refl))
  ]
]

open_of-sort_cursors : (u : Timeframe) (cs : Opens) → open_of u (sort_cursors cs) ≡ open_of u cs
unfolding open_of sort_cursors
open_of-sort_cursors u [] = refl
open_of-sort_cursors u ((v, d) ∷ cs) =
    open_of-insert_cursor u v d (sort_cursors cs)
    ∙ ap (found (same_frame u v) d) (open_of-sort_cursors u cs)

-- The new cursor of a timeframe is found, and those of the others are as they were.
pub open_of-moved :
    (u tf : Timeframe) (t : ℕ) (cs : Opens)
    → open_of u (without tf cs ++ ((tf, t) ∷ [])) ≡ found (same_frame u tf) t (open_of u cs)
unfolding open_of without
open_of-moved u tf t [] = refl
open_of-moved u tf t ((v, d) ∷ cs) = elim (Bool-cases (same_frame v tf)) [
  | inl own ↦
      let same = same_frame→eq v tf own in
      elim (Bool-cases (same_frame u tf)) [
        | inl e ↦ rw own (open_of-moved u tf t cs ∙ rw e refl)
        | inr e ↦ rw (own, e) (open_of-moved u tf t cs ∙ rw (e, same, e) refl)
      ]
  | inr other ↦ elim (Bool-cases (same_frame u v)) [
    | inl e ↦
        let apart : same_frame u tf ≡ false = rw (same_frame→eq u v e) other in
        rw (other, e, apart) refl
    | inr e ↦ rw (other, e) (open_of-moved u tf t cs)
  ]
]

pub open_of-cursors :
    (u tf : Timeframe) (t : ℕ) (cs : Opens)
    → open_of u (sort_cursors (without tf cs ++ ((tf, t) ∷ [])))
      ≡ found (same_frame u tf) t (open_of u cs)
open_of-cursors u tf t cs = open_of-sort_cursors u _ ∙ open_of-moved u tf t cs
