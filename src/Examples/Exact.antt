-- ===== src/Examples/Exact.antt =====
-- The exact arithmetic of the whole numbers, and the loss of a position on the concrete account.
use native.Mathlib.Nat.{mul-le-mul_right, mul-zero, suc-mul, add-mul, div-add-mod', mod-lt}
use bot_ea.Base.{◌≡◌, refl, sym, ap, ◌∙◌, ◌<◌, true, false, some, ◌+◌, ◌*◌, ◌/◌, ℕ, suc, arith}
use bot_ea.Base.Int.{ℤ, pos, negsuc, sub_ℕ, ◌+ℤ◌, leb_ℤ, ltb_ℤ}
use bot_ea.Risk.Loss.{IsExact, IsBounded, risk_stays_within}
use bot_ea.Examples.Numbers.{integers, mul_ℤ, div_ℤ}
use bot_ea.Examples.Risk.{whole, request, result, request_is_sized, integers-IsTotal}

abbrev scaled : ℤ → ℕ → ℤ
scaled (pos a) l = pos (a * l)
scaled (negsuc a) l = sub_ℕ 0 (suc a * l)

-- The product with a number that is not negative.
times : (a : ℤ) (l : ℕ) → mul_ℤ a (pos l) ≡ scaled a l
times (pos a) l = ground (arith, mul-zero a)
times (negsuc a) l = ground (arith, mul-zero (suc a), mul-zero l)

scaled_mono : (a b : ℤ) (l : ℕ) → leb_ℤ a b ≡ true → leb_ℤ (scaled a l) (scaled b l) ≡ true
scaled_mono (pos a) (pos b) l h = ground (arith, mul-le-mul_right {m = a} {n = b} l (ground arith))
scaled_mono (negsuc a) (pos b) l h = ground (arith)
scaled_mono (pos a) (negsuc b) l h = absurd (let wrong : false ≡ true = ground arith in cc)
scaled_mono (negsuc a) (negsuc b) l h =
    ground (arith, mul-le-mul_right {m = suc b} {n = suc a} l (ground arith))

mul_mono_ℤ :
    (a b l : ℤ) → leb_ℤ (pos 0) l ≡ true → leb_ℤ a b ≡ true → leb_ℤ (mul_ℤ a l) (mul_ℤ b l) ≡ true
mul_mono_ℤ a b (pos l) p h = rw (times a l, times b l) (scaled_mono a b l h)
mul_mono_ℤ a b (negsuc l) p h = absurd (let wrong : false ≡ true = ground arith in cc)

-- The quotient by a number that is not negative.
abbrev divided : ℤ → ℕ → ℤ
divided (pos a) s = pos (a / s)
divided (negsuc a) s = negsuc (a / s)

parts : (a : ℤ) (s : ℕ) → div_ℤ a (pos s) ≡ divided a s
parts (pos a) s = ap (λ (t : ℕ). pos (a / t)) (omega arith)
parts (negsuc a) s = ap (λ (t : ℕ). negsuc (a / t)) (omega arith)

scaled-divided : (a : ℤ) (s : ℕ) → 0 < s → leb_ℤ (scaled (divided a s) s) a ≡ true
scaled-divided (pos a) s h = ground (arith, div-add-mod' a s)
scaled-divided (negsuc a) s h =
    ground (arith, div-add-mod' a s, mod-lt a {m = s} h, suc-mul (a / s) s)

floor-mul :
    (a s k : ℤ) → ltb_ℤ (pos 0) s ≡ true → some (div_ℤ a s) ≡ some k → leb_ℤ (mul_ℤ k s) a ≡ true
floor-mul a (pos s) k p h =
    let made : divided a s ≡ k = sym (parts a s) ∙ (let same = h in cc) in
    rw (sym made, times (divided a s) s) (scaled-divided a s (ground arith))
floor-mul a (negsuc s) k p h = absurd (let wrong : false ≡ true = ground arith in cc)

div-mul :
    (a l : ℤ)
    → leb_ℤ (pos 0) a ≡ true
    → ltb_ℤ (pos 0) l ≡ true
    → leb_ℤ (mul_ℤ (div_ℤ a l) l) a ≡ true
div-mul a l p q = floor-mul a l (div_ℤ a l) q refl

add-mul_ℤ :
    (a b l : ℤ)
    → leb_ℤ (pos 0) a ≡ true
    → leb_ℤ (pos 0) b ≡ true
    → leb_ℤ (pos 0) l ≡ true
    → leb_ℤ (mul_ℤ (a +ℤ b) l) (mul_ℤ a l +ℤ mul_ℤ b l) ≡ true
unfolding ◌+ℤ◌
add-mul_ℤ (pos a) (pos b) (pos l) p q r =
    rw (times (pos a) l, times (pos b) l)
      (ground (arith, add-mul a b l, mul-zero (a + b), mul-zero l))
add-mul_ℤ (negsuc a) b l p q r = absurd (let wrong : false ≡ true = ground arith in cc)
add-mul_ℤ (pos a) (negsuc b) l p q r = absurd (let wrong : false ≡ true = ground arith in cc)
add-mul_ℤ (pos a) (pos b) (negsuc l) p q r = absurd (let wrong : false ≡ true = ground arith in cc)

div-positive :
    (a l : ℤ) → leb_ℤ (pos 0) a ≡ true → ltb_ℤ (pos 0) l ≡ true → leb_ℤ (pos 0) (div_ℤ a l) ≡ true
div-positive (pos a) l p q = ground arith
div-positive (negsuc a) l p q = absurd (let wrong : false ≡ true = ground arith in cc)

pub integers-IsExact : IsExact ℤ
unfolding integers whole ◌+ℤ◌
integers-IsExact = record {
  add_mono = λ a b c h. ground arith;
  mul_mono = mul_mono_ℤ;
  add_mul = add-mul_ℤ;
  div_positive = div-positive;
  div_mul = div-mul;
  floor_mul = floor-mul;
  literal_positive = refl;
  half_positive = refl;
  slack = λ a b h. ground arith;
  rounded = λ a. ground arith;
}

risk_stays_within_example : IsBounded request result
risk_stays_within_example =
    risk_stays_within integers-IsTotal integers-IsExact request result request_is_sized refl
