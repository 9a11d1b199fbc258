-- ===== src/Execution/Reasons.antt =====
-- The reasons to reject an order and the result of gold_engine_core/execution.py, with the check of its
-- constructor.
use bot_ea.Base.{
  ℕ, ◌+◌, ◌*◌, Bool, true, false, not, ◌&&◌, ◌||◌, Option, none, some, String, List, [], ◌∷◌, ◌==◌,
  if◌then◌else◌, is_none,
}
use bot_ea.Base.Int.{ℤ, pos, negsuc, ◌-ℤ◌, leb_ℤ, ltb_ℤ}
use bot_ea.Execution.Signal.{Side, TradeMode, demo, real, ContractError, inconsistent}

pub data ExecutionReject : Type 0 where
  profile policy age drift spread invalidation account server_mode terminal : ExecutionReject
  symbol magic position_count total_volume free_margin broker_constraint : ExecutionReject
  duplicate geometry broker_check : ExecutionReject

-- The position in the enumeration, by which reasons are compared.
unfoldable pub reject_ordinal : ExecutionReject → ℕ
reject_ordinal profile = 0
reject_ordinal policy = 1
reject_ordinal age = 2
reject_ordinal drift = 3
reject_ordinal spread = 4
reject_ordinal invalidation = 5
reject_ordinal account = 6
reject_ordinal server_mode = 7
reject_ordinal terminal = 8
reject_ordinal symbol = 9
reject_ordinal magic = 10
reject_ordinal position_count = 11
reject_ordinal total_volume = 12
reject_ordinal free_margin = 13
reject_ordinal broker_constraint = 14
reject_ordinal duplicate = 15
reject_ordinal geometry = 16
reject_ordinal broker_check = 17

abbrev pub same_reject : ExecutionReject → ExecutionReject → Bool
same_reject a b = reject_ordinal a == reject_ordinal b

pub record ExecutionOrder (R : Type 0) : Type 0 where
  pub signal_id : String
  pub symbol : String
  pub side : Side
  pub volume : R
  pub price : R
  pub stop : R
  pub target : R
  pub magic : ℤ
  pub deviation_points : ℤ

pub record ExecutionValidation (R : Type 0) : Type 0 where
  pub allowed : Bool
  pub reasons : List ExecutionReject
  pub adverse_drift_r : R
  pub maximum_adverse_drift_r : R
  pub executable_price : R
  pub quote_bid : R
  pub quote_ask : R
  pub actual_risk : R
  pub actual_reward : R
  pub actual_rr : R
  pub order : Option (ExecutionOrder R)

abbrev pub no_reasons : List ExecutionReject → Bool
no_reasons [] = true
no_reasons (_ ∷ _) = false

-- `ExecutionValidation.__post_init__`
unfoldable pub validation_error : {R : Type 0} → ExecutionValidation R → Option ContractError
validation_error v =
    let consistent = no_reasons v.reasons && not (is_none v.order) in
    if (v.allowed && consistent) || (not v.allowed && not consistent)
    then none
    else some inconsistent

abbrev pub same_mode : TradeMode → TradeMode → Bool
same_mode demo demo = true
same_mode demo real = false
same_mode real demo = false
same_mode real real = true

abbrev pub same_ℤ : ℤ → ℤ → Bool
same_ℤ a b = leb_ℤ a b && leb_ℤ b a

abbrev pub max_ℤ : ℤ → ℤ → ℤ
max_ℤ a b = if ltb_ℤ a b then b else a

-- `timedelta(seconds=n)` in microseconds
abbrev pub microseconds : ℤ → ℤ
microseconds (pos n) = pos (n * 1000000)
microseconds (negsuc n) = pos 0 -ℤ pos ((n + 1) * 1000000)

-- `dict.fromkeys(reasons)`
unfoldable pub without_reject : ExecutionReject → List ExecutionReject → List ExecutionReject
without_reject r [] = []
without_reject r (q ∷ qs) =
    let rest = without_reject r qs in if same_reject q r then rest else q ∷ rest

unfoldable pub unique : List ExecutionReject → List ExecutionReject
unfolding without_reject
unique [] = []
unique (r ∷ rs) = r ∷ without_reject r (unique rs)

-- `if test: reasons.append(reason)` for each test in turn
unfoldable pub appended : List (Bool × ExecutionReject) → List ExecutionReject
appended [] = []
appended ((b, r) ∷ rest) = let tail = appended rest in if b then r ∷ tail else tail
