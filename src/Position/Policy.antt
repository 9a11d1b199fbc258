-- ===== src/Position/Policy.antt =====
-- The policy, the position and the milestones of goldm_signal/position_management.py, with the
-- checks of their constructors. Floats are a `Number`.
use bot_ea.Base.{
  Bool, true, false, not, ◌&&◌, ◌||◌, Option, none, some, String, List, [], ◌∷◌, str_eq,
  if◌then◌else◌,
}
use bot_ea.Base.Int.{ℤ, pos, leb_ℤ}
use bot_ea.Base.Errors.{first_error}
use bot_ea.Base.Number.{Number, ◌-R◌, ◌<R◌, ◌≤R◌, zero_R, abs_R}

pub data PositionSide : Type 0 where
  buy sell : PositionSide

-- `PositionSide(self.side)`; `none` is its ValueError
unfoldable pub side_named : String → Option PositionSide
side_named s = if str_eq s "buy" then some buy else if str_eq s "sell" then some sell else none

pub data BrokerActionStatus : Type 0 where
  no_action pending submitted confirmed failed unknown : BrokerActionStatus

-- `BrokerActionStatus(raw)`
unfoldable pub status_named : String → Option BrokerActionStatus
status_named s =
    if str_eq s "NONE"
    then some no_action
    else if str_eq s "PENDING"
    then some pending
    else if str_eq s "SUBMITTED"
    then some submitted
    else if str_eq s "CONFIRMED"
    then some confirmed
    else if str_eq s "FAILED"
    then some failed
    else if str_eq s "UNKNOWN"
    then some unknown
    else none

pub record PositionManagementPolicy (R : Type 0) : Type 0 where
  pub r1_threshold : R
  pub r2_threshold : R
  pub r3_threshold : R
  pub r1_lock_r : R
  pub r2_lock_r : R
  pub r1_protection_enabled : Bool
  pub r2_protection_enabled : Bool
  pub r3_close_enabled : Bool
  pub partial_close_enabled : Bool

-- The messages of the ValueErrors, and the ZeroDivisionError of a float.
pub data ValueError : Type 0 where
  policy_not_finite thresholds r1_lock r2_lock partial_close : ValueError
  side position_not_finite identifier prices volume buy_stop sell_stop status : ValueError
  quote_not_positive quote_crossed lock_not_finite zero_division : ValueError

pub record ManagedPosition (R : Type 0) : Type 0 where
  pub position_identifier : ℤ
  pub side : PositionSide
  pub actual_entry : R
  pub initial_stop : R
  pub current_stop : R
  pub current_take_profit : R
  pub initial_volume : R
  pub remaining_volume : R

pub record MilestoneState : Type 0 where
  pub r1_reached : Bool
  pub r2_reached : Bool
  pub r3_reached : Bool
  pub r1_protection_status : BrokerActionStatus
  pub r2_protection_status : BrokerActionStatus
  pub r3_close_status : BrokerActionStatus

-- A result, or the error that is raised.
pub data Checked {ℓ} (A : Type ℓ) : Type ℓ where
  fine : A → Checked A
  error : ValueError → Checked A

infixl 5 ◌>>=◌
unfoldable pub ◌>>=◌ {ℓ κ} : {A : Type ℓ} {B : Type κ} → Checked A → (A → Checked B) → Checked B
fine a >>= f = f a
error e >>= f = error e

abbrev pub or_error {ℓ} : {A : Type ℓ} → Option A → ValueError → Checked A
or_error none e = error e
or_error (some a) e = fine a

-- `MilestoneState.__post_init__`, from the three texts
unfoldable pub milestones_of :
    Bool → Bool → Bool → String → String → String → Checked MilestoneState
unfolding status_named ◌>>=◌
milestones_of a b c r1 r2 r3 = do
  s1 ← or_error (status_named r1) status
  s2 ← or_error (status_named r2) status
  s3 ← or_error (status_named r3) status
  fine (record {
    r1_reached = a;
    r2_reached = b;
    r3_reached = c;
    r1_protection_status = s1;
    r2_protection_status = s2;
    r3_close_status = s3;
  })

abbrev pub is_buy : PositionSide → Bool
is_buy buy = true
is_buy sell = false

module _ {R : Type 0} ⦃num : Number R⦄ where
  -- `PositionManagementPolicy()`
  abbrev pub default_policy : PositionManagementPolicy R
  default_policy = record {
    r1_threshold = num.of_int (pos 1);
    r2_threshold = num.of_int (pos 2);
    r3_threshold = num.of_int (pos 3);
    r1_lock_r = num.div (num.of_int (pos 1)) (num.of_int (pos 4));
    r2_lock_r = num.of_int (pos 1);
    r1_protection_enabled = true;
    r2_protection_enabled = true;
    r3_close_enabled = true;
    partial_close_enabled = false;
  }

  -- `PositionManagementPolicy.__post_init__`: its tests, each with the error that it raises
  abbrev pub policy_tests : PositionManagementPolicy R → List (Bool × ValueError)
  policy_tests p =
      (
        not (
            num.is_finite p.r1_threshold
            && num.is_finite p.r2_threshold
            && num.is_finite p.r3_threshold
            && num.is_finite p.r1_lock_r
            && num.is_finite p.r2_lock_r),
        policy_not_finite,
      )
      ∷ (
        not (
            (zero_R <R p.r1_threshold)
            && (p.r1_threshold <R p.r2_threshold)
            && (p.r2_threshold <R p.r3_threshold)),
        thresholds,
      )
      ∷ (not ((zero_R ≤R p.r1_lock_r) && (p.r1_lock_r <R p.r1_threshold)), r1_lock)
      ∷ (not ((p.r1_lock_r ≤R p.r2_lock_r) && (p.r2_lock_r <R p.r2_threshold)), r2_lock)
      ∷ (p.partial_close_enabled, partial_close)
      ∷ []

  unfoldable pub policy_error : PositionManagementPolicy R → Option ValueError
  unfolding first_error
  policy_error p = first_error (policy_tests p)

  -- `ManagedPosition.__post_init__`, after the side
  abbrev pub position_tests : ManagedPosition R → List (Bool × ValueError)
  position_tests p =
      (
        not (
            num.is_finite p.actual_entry
            && num.is_finite p.initial_stop
            && num.is_finite p.current_stop
            && num.is_finite p.current_take_profit
            && num.is_finite p.initial_volume
            && num.is_finite p.remaining_volume),
        position_not_finite,
      )
      ∷ (leb_ℤ p.position_identifier (pos 0), identifier)
      ∷ ((p.actual_entry ≤R zero_R) || (p.initial_stop ≤R zero_R), prices)
      ∷ (
        (p.initial_volume ≤R zero_R)
            || not ((zero_R <R p.remaining_volume) && (p.remaining_volume ≤R p.initial_volume)),
        volume,
      )
      ∷ (is_buy p.side && (p.actual_entry ≤R p.initial_stop), buy_stop)
      ∷ (not (is_buy p.side) && (p.initial_stop ≤R p.actual_entry), sell_stop)
      ∷ []

  unfoldable pub position_error : ManagedPosition R → Option ValueError
  unfolding first_error
  position_error p = first_error (position_tests p)

  -- `initial_risk_distance`
  abbrev pub initial_risk_distance : ManagedPosition R → R
  initial_risk_distance p = abs_R (p.actual_entry -R p.initial_stop)
