-- ===== src/Base/Errors.antt =====
-- A row of checks: `if test: raise error` for each test in turn.
use mathlib.Core.Path.{◌≡◌, refl}
use mathlib.Core.Bool.{Bool, true, false}
use mathlib.Core.Option.{Option, none, some}
use mathlib.Core.List.{List, [], ◌∷◌}
use bot_ea.Base.Tests.{if◌then◌else◌}

unfoldable pub first_error {ℓ} : {E : Type ℓ} → List (Bool × E) → Option E
first_error [] = none
first_error ((b, e) ∷ rest) = if b then some e else first_error rest

-- No test of the row asks for its error.
abbrev pub AllPass {ℓ} : {E : Type ℓ} → List (Bool × E) → Type 0
AllPass [] = Unit
AllPass ((b, _) ∷ rest) = (b ≡ false) × AllPass rest

pub first_error-AllPass {ℓ} :
    {E : Type ℓ} (ts : List (Bool × E)) → first_error ts ≡ none → AllPass ts
unfolding first_error
first_error-AllPass [] h = tt
first_error-AllPass ((true, e) ∷ rest) h = absurd cc
first_error-AllPass ((false, e) ∷ rest) h = (refl, first_error-AllPass rest h)

pub AllPass-first_error {ℓ} :
    {E : Type ℓ} (ts : List (Bool × E)) → AllPass ts → first_error ts ≡ none
unfolding first_error
AllPass-first_error [] h = refl
AllPass-first_error ((b, e) ∷ rest) h = rw h.0 (AllPass-first_error rest h.1)
