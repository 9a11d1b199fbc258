-- ===== src/Examples/Ordered.antt =====
-- The integers are ordered as the position management needs it.
use bot_ea.Base.{ℕ, zero, suc, ◌≡◌, refl, true, arith}
use bot_ea.Base.Int.{ℤ, pos, negsuc, leb_ℤ, ◌+ℤ◌, ◌-ℤ◌}
use bot_ea.Base.Number.{abs_R}
use bot_ea.Position.Policy.{buy}
use bot_ea.Position.Plan.{stop_for_r}
use bot_ea.Position.Profit.{IsOrdered, Gains, stop_for_r-Gains}
use bot_ea.Examples.Numbers.{integers}
use bot_ea.Examples.Position.{position}

product_ℤ :
    (a b : ℤ)
    → leb_ℤ (pos 0) a ≡ true
    → leb_ℤ (pos 0) b ≡ true
    → leb_ℤ (pos 0) (integers.mul a b) ≡ true
unfolding integers
product_ℤ (pos n) (pos m) p q = ground arith
product_ℤ (pos n) (negsuc m) p q = ground arith
product_ℤ (negsuc n) b p q = ground arith

negative_product_ℤ :
    (a b : ℤ)
    → leb_ℤ a (pos 0) ≡ true
    → leb_ℤ (pos 0) b ≡ true
    → leb_ℤ (integers.mul a b) (pos 0) ≡ true
unfolding integers
negative_product_ℤ (pos zero) (pos m) p q = ground arith
negative_product_ℤ (pos (suc n)) (pos m) p q = ground arith
negative_product_ℤ (pos n) (negsuc m) p q = ground arith
negative_product_ℤ (negsuc n) (pos m) p q = ground arith
negative_product_ℤ (negsuc n) (negsuc m) p q = ground arith

gain_ℤ : (a b : ℤ) → leb_ℤ (pos 0) b ≡ true → leb_ℤ a (a +ℤ b) ≡ true
unfolding ◌+ℤ◌
gain_ℤ a b h = ground arith

loss_ℤ : (a b : ℤ) → leb_ℤ b (pos 0) ≡ true → leb_ℤ (a +ℤ b) a ≡ true
unfolding ◌+ℤ◌
loss_ℤ a b h = ground arith

distance_ℤ : (a : ℤ) → leb_ℤ (pos 0) (abs_R a) ≡ true
unfolding integers ◌-ℤ◌
distance_ℤ a = ground arith

integers-IsOrdered : IsOrdered ℤ
unfolding integers
integers-IsOrdered = record {
  one = refl;
  minus_one = refl;
  factors = λ a b f. (refl, refl);
  term = λ a b f. refl;
  distance = λ a f. distance_ℤ a;
  product = λ a b f. product_ℤ a b;
  negative_product = λ a b f. negative_product_ℤ a b;
  gain = λ a b f. gain_ℤ a b;
  loss = λ a b f. loss_ℤ a b;
}

stop_for_r-Gains_example : Gains buy (pos 2000) (pos 2020)
unfolding stop_for_r integers bot_ea.Base.Int.◌-ℤ◌ bot_ea.Base.Int.◌+ℤ◌
stop_for_r-Gains_example =
    stop_for_r-Gains position (pos 2) (pos 2020) integers-IsOrdered refl refl refl
