-- ===== src/Examples/Payload.antt =====
-- The payload of a concrete execution policy of gold_engine_core.
use bot_ea.Base.{◌≡◌, refl, some, none, str_eq, if◌then◌else◌}
use bot_ea.Base.Int.{ℤ, pos}
use bot_ea.Execution.Contract.{ExecutionPolicy, policy_error}
use bot_ea.Execution.Payload.{DecimalText, fine, from_payload, to_payload}
use bot_ea.Execution.Roundtrip.{from_payload-to_payload}
use bot_ea.Examples.Numbers.{integers}

instance texts : DecimalText ℤ
texts = record { decimal_of = λ s. if str_eq s "2" then some (pos 2) else none; text_of = λ _. "2" }

abbrev policy : ExecutionPolicy ℤ
policy = record {
  schema_version = pos 2;
  profile_id = "GOLDM";
  profile_fingerprint = "0123456789abcdef0123456789abcdef0123456789abcdef0123456789abcdef";
  policy_version = "1";
  maximum_spread = pos 2;
  maximum_signal_age_seconds = pos 60;
}

from_payload-to_payload_example : from_payload (to_payload policy) ≡ fine policy
unfolding policy_error integers texts
from_payload-to_payload_example = from_payload-to_payload policy refl refl
