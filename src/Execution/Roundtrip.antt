-- ===== src/Execution/Roundtrip.antt =====
-- The payload of an execution policy is read back as that policy.
use bot_ea.Base.{
  ◌≡◌, refl, sym, ap, ◌∙◌, Bool, true, false, not, ◌||◌, none, some, String, ◌==◌, is_empty, count,
  arith, eq_iff, Bool-cases, inl, inr,
}
use bot_ea.Base.Errors.{first_error, first_error-AllPass}
use bot_ea.Base.Number.{Number, ◌<R◌, zero_R}
use bot_ea.Bridge.Json.{text, get}
use bot_ea.Execution.Contract.{ExecutionPolicy, policy_checks, policy_error}
use bot_ea.Execution.Payload.{
  DecimalText, fine, ◌>>=◌, only_keys, all_keys, value_of, mapping, integer_of, string_of,
  decimal_value, from_payload, to_payload,
}

either : (a b : Bool) → (a || b) ≡ false → (a ≡ false) × (b ≡ false)
either a b h = ground arith

filled : (s : String) → not (count s == 64) ≡ false → is_empty s ≡ false
filled s h = elim (Bool-cases (is_empty s)) [
  | inr n ↦ n
  | inl e ↦
      let none_left : s ≡ "" = (eq_iff s "").0 e in
      let clash : true ≡ false = sym (ap (λ t. not (count t == 64)) none_left) ∙ h in absurd cc
]

string_of-text : (s : String) → is_empty s ≡ false → string_of (text s) ≡ fine s
unfolding string_of
string_of-text s h = rw h refl

module _ {R : Type 0} ⦃num : Number R⦄ ⦃txt : DecimalText R⦄ where
  decimal_value-text :
      (s : String) (d : R)
      → txt.decimal_of s ≡ some d
      → not (num.is_finite d) ≡ false
      → (d <R zero_R) ≡ false
      → decimal_value (text s) ≡ fine d
  unfolding decimal_value first_error
  decimal_value-text s d h f p = rw (h, f, p) refl

  -- A policy that its constructor accepts is read back from its payload, where `Decimal` reads the
  -- text of its maximum spread as that spread.
  pub from_payload-to_payload :
      (p : ExecutionPolicy R)
      → policy_error p ≡ none
      → txt.decimal_of (txt.text_of p.maximum_spread) ≡ some p.maximum_spread
      → from_payload (to_payload p) ≡ fine p
  unfolding from_payload to_payload ◌>>=◌ mapping only_keys all_keys get value_of integer_of
      first_error policy_error
  from_payload-to_payload p v t =
      let (_, (named, (long, (finite, (large, _))))) = first_error-AllPass (policy_checks p) v in
      let ids = either _ _ named in
      rw
        (
          string_of-text p.profile_id ids.0,
          string_of-text p.profile_fingerprint (filled p.profile_fingerprint long),
          string_of-text p.policy_version ids.1,
          decimal_value-text (txt.text_of p.maximum_spread) p.maximum_spread t finite
              (either _ _ large).0,
          v,
        )
        refl
