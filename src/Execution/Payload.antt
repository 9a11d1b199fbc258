-- ===== src/Execution/Payload.antt =====
-- `ExecutionPolicy.from_payload` and `to_payload` of gold_engine_core/execution.py. The texts of
-- decimals, `Decimal(text)` and `str(decimal)`, are a parameter.
use bot_ea.Base.{
  Bool, true, not, ◌&&◌, Option, none, some, String, List, [], ◌∷◌, is_empty, is_none, one_of,
  if◌then◌else◌,
}
use bot_ea.Base.Int.{ℤ}
use bot_ea.Base.Errors.{first_error}
use bot_ea.Base.Number.{Number}
use bot_ea.Bridge.Json.{Json, null, integer, text, object, Members, end, member, get}
use bot_ea.Execution.Signal.{
  ContractError, not_a_mapping, wrong_keys, not_an_integer, not_a_string, not_a_decimal,
  not_negative,
}
use bot_ea.Execution.Contract.{ExecutionPolicy, policy_error}

-- `Decimal(text)`, where `none` is its InvalidOperation, and `str(decimal)`
pub record DecimalText (R : Type 0) : Type 0 where
  pub decimal_of : String → Option R
  pub text_of : R → String

-- A result, or the ExecutionContractError that is raised.
pub data Checked {ℓ} (A : Type ℓ) : Type ℓ where
  fine : A → Checked A
  error : ContractError → Checked A

infixl 5 ◌>>=◌
unfoldable pub ◌>>=◌ {ℓ κ} : {A : Type ℓ} {B : Type κ} → Checked A → (A → Checked B) → Checked B
fine a >>= f = f a
error e >>= f = error e

-- `if error: raise`, and `a` otherwise
abbrev pub unless {ℓ} : {A : Type ℓ} → Option ContractError → A → Checked A
unless none a = fine a
unless (some e) a = error e

abbrev pub expected_keys : List String
expected_keys =
    "maximum_signal_age_seconds" ∷ "maximum_spread" ∷ "policy_version" ∷ "profile_fingerprint"
    ∷ "profile_id" ∷ "schema_version" ∷ []

unfoldable pub only_keys : List String → Members → Bool
only_keys ks end = true
only_keys ks (member k _ m) = one_of k ks && only_keys ks m

unfoldable pub all_keys : List String → Members → Bool
unfolding get
all_keys [] m = true
all_keys (k ∷ ks) m = not (is_none (get k m)) && all_keys ks m

-- `set(data) == expected`
abbrev pub has_expected_keys : Members → Bool
has_expected_keys m = only_keys expected_keys m && all_keys expected_keys m

abbrev pub with_expected_keys : Members → Checked Members
with_expected_keys m = if has_expected_keys m then fine m else error wrong_keys

-- `data[key]`, once the keys are known to be there
unfoldable pub value_of : String → Members → Json
unfolding get
value_of k m = elim (get k m) [ none ↦ null | some v ↦ v ]

-- `_mapping`; the keys of a JSON object are texts
unfoldable pub mapping : Json → Checked Members
mapping (object m) = fine m
mapping _ = error not_a_mapping

-- An integer that is no Boolean.
unfoldable pub integer_of : Json → Checked ℤ
integer_of (integer n) = fine n
integer_of _ = error not_an_integer

-- `_string`
unfoldable pub string_of : Json → Checked String
string_of (text s) = if is_empty s then error not_a_string else fine s
string_of _ = error not_a_string

module _ {R : Type 0} ⦃num : Number R⦄ ⦃txt : DecimalText R⦄ where
  abbrev pub checked_decimal : Option R → Checked R
  checked_decimal none = error not_a_decimal
  checked_decimal (some d) = unless (first_error (not_negative d "maximum_spread")) d

  -- `_decimal`
  unfoldable pub decimal_value : Json → Checked R
  unfolding first_error
  decimal_value (text s) = checked_decimal (txt.decimal_of s)
  decimal_value _ = error not_a_decimal

  -- `ExecutionPolicy.from_payload`
  unfoldable pub from_payload : Json → Checked (ExecutionPolicy R)
  from_payload payload = do
    data' ← mapping payload >>= with_expected_keys
    schema ← integer_of (value_of "schema_version" data')
    age ← integer_of (value_of "maximum_signal_age_seconds" data')
    id ← string_of (value_of "profile_id" data')
    fingerprint ← string_of (value_of "profile_fingerprint" data')
    version ← string_of (value_of "policy_version" data')
    spread ← decimal_value (value_of "maximum_spread" data')
    let policy : ExecutionPolicy R = record {
      schema_version = schema;
      profile_id = id;
      profile_fingerprint = fingerprint;
      policy_version = version;
      maximum_spread = spread;
      maximum_signal_age_seconds = age;
    }
    unless (policy_error policy) policy

  -- `ExecutionPolicy.to_payload`
  unfoldable pub to_payload : ExecutionPolicy R → Json
  to_payload p = object (
      member "maximum_signal_age_seconds" (integer p.maximum_signal_age_seconds) (
        member "maximum_spread" (text (txt.text_of p.maximum_spread)) (
          member "policy_version" (text p.policy_version) (
            member "profile_fingerprint" (text p.profile_fingerprint) (
              member "profile_id" (text p.profile_id)
                (member "schema_version" (integer p.schema_version) end))))))
