-- ===== src/Examples/Numbers.antt =====
-- The integers as the numbers of the examples, with division that rounds down.
use bot_ea.Base.{ℕ, ◌+◌, ◌*◌, ◌/◌, ◌%◌, ◌≡◌, true, ◌&&◌, arith}
use bot_ea.Base.Int.{ℤ, pos, negsuc, pos_part, neg_part, sub_ℕ, ◌+ℤ◌, ◌-ℤ◌, ltb_ℤ, leb_ℤ}
use bot_ea.Base.Number.{Number}

abbrev pub mul_ℤ : ℤ → ℤ → ℤ
mul_ℤ a b =
    sub_ℕ (pos_part a * pos_part b + neg_part a * neg_part b)
      (pos_part a * neg_part b + neg_part a * pos_part b)

abbrev size : ℤ → ℕ
size a = pos_part a + neg_part a

-- Division that rounds down, by the absolute value.
abbrev pub div_ℤ : ℤ → ℤ → ℤ
div_ℤ (pos n) b = pos (n / size b)
div_ℤ (negsuc n) b = negsuc (n / size b)

instance unfoldable pub integers : Number ℤ
unfolding ◌+ℤ◌ ◌-ℤ◌
integers = record {
  of_int = λ n. n;
  add = λ a b. a +ℤ b;
  sub = λ a b. a -ℤ b;
  mul = mul_ℤ;
  div = div_ℤ;
  modulo = λ a b. pos (size a % size b);
  below = ltb_ℤ;
  at_most = leb_ℤ;
  same = λ a b. leb_ℤ a b && leb_ℤ b a;
  is_finite = λ _. true;
}

pub gap_is_positive : (a b : ℤ) → ltb_ℤ a b ≡ true → ltb_ℤ (pos 0) (b -ℤ a) ≡ true
unfolding ◌-ℤ◌
gap_is_positive a b h = ground arith
