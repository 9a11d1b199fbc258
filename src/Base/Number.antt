-- ===== src/Base/Number.antt =====
-- What the program uses of Python's floats and decimals: operations only. Their rounding is not
-- modelled, so a definition over a `Number` holds for every arithmetic.
use mathlib.Core.Bool.{Bool}
use bot_ea.Base.Tests.{if◌then◌else◌}
use bot_ea.Base.Int.{ℤ, pos}

pub record Number (R : Type 0) : Type 0 where
  pub of_int : ℤ → R
  pub add : R → R → R
  pub sub : R → R → R
  pub mul : R → R → R
  pub div : R → R → R
  pub modulo : R → R → R
  pub below : R → R → Bool
  pub at_most : R → R → Bool
  pub same : R → R → Bool
  pub is_finite : R → Bool

module _ {R : Type 0} ⦃num : Number R⦄ where
  infixl 65 ◌-R◌ ◌+R◌
  infixl 70 ◌*R◌ ◌/R◌
  infix 50 ◌<R◌ ◌≤R◌ ◌=R◌
  abbrev pub ◌+R◌ : R → R → R
  a +R b = num.add a b

  abbrev pub ◌-R◌ : R → R → R
  a -R b = num.sub a b

  abbrev pub ◌*R◌ : R → R → R
  a *R b = num.mul a b

  abbrev pub ◌/R◌ : R → R → R
  a /R b = num.div a b

  abbrev pub ◌<R◌ : R → R → Bool
  a <R b = num.below a b

  abbrev pub ◌≤R◌ : R → R → Bool
  a ≤R b = num.at_most a b

  abbrev pub ◌=R◌ : R → R → Bool
  a =R b = num.same a b

  abbrev pub zero_R : R
  zero_R = num.of_int (pos 0)

  -- `max(a, b)`: the first unless the second is greater
  abbrev pub max_R : R → R → R
  max_R a b = if a <R b then b else a

  -- `abs(a)`
  abbrev pub abs_R : R → R
  abs_R a = if a <R zero_R then num.sub zero_R a else a
