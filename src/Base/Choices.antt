-- ===== src/Base/Choices.antt =====
-- What a row of early returns gives.
use mathlib.Core.Path.{◌≡◌, refl}
use mathlib.Core.Bool.{Bool, true, false, not, ◌&&◌}
use mathlib.Core.List.{List, [], ◌∷◌, ◌++◌}
use bot_ea.Base.Lists.{All}
use bot_ea.Base.Library.{choose}

abbrev pub all_of : List Bool → Bool
all_of [] = true
all_of (b ∷ bs) = b && all_of bs

pub all_of-All : (bs : List Bool) → all_of bs ≡ true → All (λ b. b ≡ true) bs
all_of-All [] h = tt
all_of-All (true ∷ bs) h = (refl, all_of-All bs h)
all_of-All (false ∷ bs) h = cc

pub not-true : (b : Bool) → not b ≡ true → b ≡ false
not-true true h = cc
not-true false h = refl

module _ {ℓ} {A : Type ℓ} where
  -- The tests of a row, negated, and that none of them holds.
  abbrev pub negations : List (Bool × A) → List Bool
  negations [] = []
  negations ((b, _) ∷ rest) = not b ∷ negations rest

  abbrev pub none_of : List (Bool × A) → Bool
  none_of ts = all_of (negations ts)

  -- A property of every value of the row whose test holds, and of the last one.
  pub choose-cases {κ} :
      (P : A → Type κ) (ts : List (Bool × A)) (last : A)
      → All (λ (t : Bool × A). t.0 ≡ true → P t.1) ts
      → P last
      → P (choose ts last)
  unfolding choose
  choose-cases P [] last h l = l
  choose-cases P ((true, a) ∷ rest) last h l = h.0 refl
  choose-cases P ((false, a) ∷ rest) last h l = choose-cases P rest last h.1 l

  -- Where the row's values fail a test, the result passes it exactly if no test of the row holds and
  -- the last value passes it.
  pub choose_passes :
      (test : A → Bool) (ts : List (Bool × A)) (last : A) (conditions : List Bool)
      → All (λ (t : Bool × A). test t.1 ≡ false) ts
      → test last ≡ all_of conditions
      → test (choose ts last) ≡ all_of (negations ts ++ conditions)
  unfolding choose
  choose_passes test [] last cs h l = l
  choose_passes test ((true, a) ∷ rest) last cs h l = h.0
  choose_passes test ((false, a) ∷ rest) last cs h l = choose_passes test rest last cs h.1 l
