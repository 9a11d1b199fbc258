-- ===== src/Base/Decimal.antt =====
-- `str` of a natural number and the digits that `int` reads.
use Prim.Native.Nat.{ℕ, zero, suc, ◌+◌, ◌-◌, ◌*◌, ◌/◌, ◌%◌, ◌<◌}
use mathlib.Core.Path.{◌≡◌, refl, ap, ◌∙◌}
use mathlib.Core.Logic.{inl, inr}
use mathlib.Core.Bool.{Bool, true, false, ◌&&◌}
use mathlib.Core.Option.{Option, none, some}
use mathlib.Core.List.{[], ◌∷◌}
use native.Mathlib.Omega.{arith}
use bot_ea.Base.Tests.{◌==◌, leb, if◌then◌else◌, Bool-cases}
use bot_ea.Base.Text.{Text, strip}
use bot_ea.Base.Split.{has_char}
use bot_ea.Base.Int.{ℤ, pos, negsuc}

abbrev pub is_digit : ℕ → Bool
is_digit c = leb 48 c && leb c 57

abbrev pub all_digits : Text → Bool
all_digits [] = true
all_digits (c ∷ cs) = is_digit c && all_digits cs

-- Fuel above the number is enough, since each round divides it by ten.
decimal_from : ℕ → ℕ → Text → Text
decimal_from zero n acc = acc
decimal_from (suc f) n acc =
    let longer = decimal_from f (n / 10) ((48 + n % 10) ∷ acc) in
    if n / 10 == 0 then (48 + n % 10) ∷ acc else longer

-- `str(n)`
unfoldable pub decimal : ℕ → Text
unfolding decimal_from
decimal n = decimal_from (suc n) n []

-- The number that digits stand for, behind `acc`.
unfoldable pub value_from : ℕ → Text → ℕ
value_from acc [] = acc
value_from acc (c ∷ cs) = value_from (acc * 10 + (c - 48)) cs

value_from-decimal_from :
    (f n : ℕ) (acc : Text) → n < f → value_from 0 (decimal_from f n acc) ≡ value_from n acc
unfolding decimal_from value_from
value_from-decimal_from zero n acc h = absurd (omega arith)
value_from-decimal_from (suc f) n acc h = elim (Bool-cases (n / 10 == 0)) [
  | inl e ↦ rw e (ap (λ k. value_from k acc) (ground arith))
  | inr m ↦ rw m (
      value_from-decimal_from f (n / 10) ((48 + n % 10) ∷ acc) (ground arith)
      ∙ ap (λ k. value_from k acc) (omega arith))
]

-- The decimal text of a number stands for it.
pub value_from-decimal : (n : ℕ) → value_from 0 (decimal n) ≡ n
unfolding decimal value_from
value_from-decimal n = value_from-decimal_from (suc n) n [] (omega arith)

all_digits-decimal_from :
    (f n : ℕ) (acc : Text) → all_digits acc ≡ true → all_digits (decimal_from f n acc) ≡ true
unfolding decimal_from
all_digits-decimal_from zero n acc h = h
all_digits-decimal_from (suc f) n acc h =
    ground (arith, all_digits-decimal_from f (n / 10) ((48 + n % 10) ∷ acc))

pub all_digits-decimal : (n : ℕ) → all_digits (decimal n) ≡ true
unfolding decimal
all_digits-decimal n = all_digits-decimal_from (suc n) n [] refl

pub has_char_digits :
    (k : ℕ) (s : Text) → is_digit k ≡ false → all_digits s ≡ true → has_char k s ≡ false
has_char_digits k [] n h = refl
has_char_digits k (c ∷ cs) n h = ground (arith, has_char_digits k cs)

-- Digits with single underscores between them.
unfoldable pub digits_value : ℕ → Bool → Text → Option ℕ
digits_value acc after_digit [] = if after_digit then some acc else none
digits_value acc after_digit (c ∷ cs) =
    let grouped = digits_value acc false cs in
    let longer = digits_value (acc * 10 + (c - 48)) true cs in
    if is_digit c then longer else if c == b'_' && after_digit then grouped else none

abbrev negated : Option ℕ → Option ℤ
negated none = none
negated (some zero) = some (pos 0)
negated (some (suc n)) = some (negsuc n)

abbrev positive : Option ℕ → Option ℤ
positive none = none
positive (some n) = some (pos n)

signed : Text → Option ℤ
unfolding digits_value
signed [] = none
signed (c ∷ cs) =
    if c == b'-'
    then negated (digits_value 0 false cs)
    else if c == b'+'
    then positive (digits_value 0 false cs)
    else positive (digits_value 0 false (c ∷ cs))

-- `int(text)` of an ASCII text: white space around it is ignored.
unfoldable pub parse_int : Text → Option ℤ
unfolding signed strip
parse_int s = signed (strip s)
