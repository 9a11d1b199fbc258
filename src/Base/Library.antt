-- ===== src/Base/Library.antt =====
-- What the program uses of Python's library on numbers and texts, beyond the arithmetic: decimal
-- literals, `math.floor`, `round`, `format` and the changes of case, which read Unicode tables.
use Prim.Native.Nat.{ℕ}
use Prim.Native.String.{String, len, find}
use mathlib.Core.Bool.{Bool, false, ◌||◌}
use mathlib.Core.Option.{Option}
use mathlib.Core.List.{List, [], ◌∷◌}
use bot_ea.Base.Tests.{leb, if◌then◌else◌}
use bot_ea.Base.Int.{ℤ}

pub record Library (R : Type 0) : Type 0 where
  -- `literal n k`: the literal whose digits are n, with k of them behind the point
  pub literal : ℕ → ℕ → R
  pub infinity : R
  -- `none`: `math.floor` raises, on an infinity or a NaN
  pub floor : R → Option ℤ
  pub round : R → ℕ → R
  -- `format(x, ".kf")`
  pub fixed : R → ℕ → String
  pub upper : String → String
  pub lower : String → String
  pub is_digits : String → Bool

-- `part in text`
abbrev pub contains : String → String → Bool
contains text part = leb (find text part) (len text)

abbrev pub contains_any : String → List String → Bool
contains_any text [] = false
contains_any text (p ∷ ps) = contains text p || contains_any text ps

-- A row of early returns before a last one: `if test: return value`.
unfoldable pub choose {ℓ} : {A : Type ℓ} → List (Bool × A) → A → A
choose [] last = last
choose ((b, a) ∷ rest) last = if b then a else choose rest last
