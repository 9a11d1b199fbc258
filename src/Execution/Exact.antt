-- ===== src/Execution/Exact.antt =====
-- What it is for the single tests of gold_engine_core/execution.py to fail.
use bot_ea.Base.{
  ◌≡◌, refl, sym, ap, ◌⊎◌, inl, inr, ◌↔◌, Bool, true, false, not, ◌&&◌, ◌||◌, String, List, [], ◌∷◌,
  str_eq, eq_iff, arith,
}
use bot_ea.Base.Int.{ℤ, ◌-ℤ◌, leb_ℤ, ltb_ℤ}
use bot_ea.Execution.Signal.{TradeMode, demo, real}
use bot_ea.Execution.Order.{ExecutionReject, no_reasons, same_mode, unique, appended}

abbrev pub AllFail : List (Bool × ExecutionReject) → Type 0
AllFail [] = Unit
AllFail ((b, _) ∷ rest) = (b ≡ false) × AllFail rest

pub no_reasons-appended :
    (ts : List (Bool × ExecutionReject)) → no_reasons (appended ts) ≡ true → AllFail ts
unfolding appended
no_reasons-appended [] h = tt
no_reasons-appended ((true, r) ∷ ts) h = cc
no_reasons-appended ((false, r) ∷ ts) h = (refl, no_reasons-appended ts h)

pub AllFail-no_reasons :
    (ts : List (Bool × ExecutionReject)) → AllFail ts → no_reasons (appended ts) ≡ true
unfolding appended
AllFail-no_reasons [] h = refl
AllFail-no_reasons ((b, r) ∷ ts) h = rw h.0 (AllFail-no_reasons ts h.1)

pub no_reasons-unique : (rs : List ExecutionReject) → no_reasons (unique rs) ≡ no_reasons rs
unfolding unique
no_reasons-unique [] = refl
no_reasons-unique (r ∷ rs) = refl

same_mode→eq : (a b : TradeMode) → same_mode a b ≡ true → a ≡ b
same_mode→eq demo demo h = refl
same_mode→eq demo real h = cc
same_mode→eq real demo h = cc
same_mode→eq real real h = refl

same_mode_refl : (a : TradeMode) → same_mode a a ≡ true
same_mode_refl demo = refl
same_mode_refl real = refl

pub not_exact : (a : Bool) → (not a ≡ false) ↔ (a ≡ true)
not_exact true = (λ _. refl, λ _. refl)
not_exact false = (λ h. sym h, λ h. sym h)

-- A test of two parts passes when both do.
neither {ℓ κ} :
    {P : Type ℓ} {Q : Type κ} {a b : Bool}
    → (a ≡ false) ↔ P
    → (b ≡ false) ↔ Q
    → ((a || b) ≡ false) ↔ (P × Q)
neither {a = true} f g = (λ h. absurd cc, λ h. f.1 h.0)
neither {a = false} f g = (λ h. (f.0 refl, g.0 h), λ h. g.1 h.1)

pub none_of_three {ℓ κ μ} :
    {P : Type ℓ} {Q : Type κ} {S : Type μ} {a b c : Bool}
    → (a ≡ false) ↔ P
    → (b ≡ false) ↔ Q
    → (c ≡ false) ↔ S
    → ((a || b || c) ≡ false) ↔ (P × Q × S)
none_of_three {a = true} f g k = (λ h. absurd cc, λ h. f.1 h.0)
none_of_three {a = false} f g k =
    (λ h. let r = (neither g k).0 h in (f.0 refl, r.0, r.1), λ h. (neither g k).1 (h.1, h.2))

pub same_text_exact : (s t : String) → (not (str_eq s t) ≡ false) ↔ (s ≡ t)
same_text_exact s t = (
  λ h. (eq_iff s t).0 ((not_exact (str_eq s t)).0 h),
  λ h. (not_exact (str_eq s t)).1 ((eq_iff s t).1 h),
)

same_mode_exact : (a b : TradeMode) → (not (same_mode a b) ≡ false) ↔ (a ≡ b)
same_mode_exact a b =
    (λ h. same_mode→eq a b ((not_exact (same_mode a b)).0 h), λ h. rw h (ap not (same_mode_refl b)))

not_below : (a b : ℤ) → (ltb_ℤ a b ≡ false) ↔ (leb_ℤ b a ≡ true)
not_below a b = ground arith

pub not_at_most : (a b : ℤ) → (leb_ℤ a b ≡ false) ↔ (ltb_ℤ b a ≡ true)
not_at_most a b = ground arith

pub not_both : (a b : Bool) → ((a && b) ≡ false) ↔ ((a ≡ false) ⊎ (b ≡ false))
not_both true b = (λ h. inr h, λ h. elim h [ inl e ↦ absurd cc | inr e ↦ e ])
not_both false b = (λ _. inl refl, λ _. refl)

pub in_time_exact :
    (first last now age : ℤ)
    → ((ltb_ℤ now first || ltb_ℤ last now || ltb_ℤ age (last -ℤ first)) ≡ false)
      ↔ ((leb_ℤ first now ≡ true) × (leb_ℤ now last ≡ true) × (leb_ℤ (last -ℤ first) age ≡ true))
in_time_exact first last now age =
    none_of_three (not_below now first) (not_below last now) (not_below age (last -ℤ first))

pub own_server_exact :
    (s t : String) (a b d : TradeMode)
    → ((not (str_eq s t) || not (same_mode a b) || not (same_mode b d)) ≡ false)
      ↔ ((s ≡ t) × (a ≡ b) × (b ≡ d))
own_server_exact s t a b d =
    none_of_three (same_text_exact s t) (same_mode_exact a b) (same_mode_exact b d)

pub own_symbol_exact :
    (s t u : String) → ((not (str_eq s t) || not (str_eq t u)) ≡ false) ↔ ((s ≡ t) × (t ≡ u))
own_symbol_exact s t u = neither (same_text_exact s t) (same_text_exact t u)
