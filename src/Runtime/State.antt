-- ===== src/Runtime/State.antt =====
-- The records of gold_engine_core/reference_runtime.py, and what its lanes read of those of
-- contracts.py. `S` stands for the engine's own part of its state, `Q` for a tick's prices and `P`
-- for a bar's; the identifiers of envelopes are kept as their parts,
-- the lane of an envelope is that of its kind, and its fields are the reasons of a rejection.
use bot_ea.Base.{
  ℕ, Bool, true, false, not, ◌||◌, Option, none, some, String, List, [], ◌∷◌, is_empty, str_eq,
}
use bot_ea.Base.Errors.{first_error}
use bot_ea.Runtime.Time.{Timeframe, same_frame}

-- The messages of ReferenceRuntimeError and ContractError, and any exception of the engine.
pub data RuntimeError : Type 0 where
  tick_not_later outbox_full crossed_profile lane_halted request_crossed bar_mismatch : RuntimeError
  before_cursor no_identity engine_crossed duplicate_buckets duplicate_cursors : RuntimeError
  halt_inconsistent changed_profile changed_strategy changed_version not_next_sequence :
      RuntimeError
  moved_backwards future_decision future_event decision_profile decision_strategy : RuntimeError
  event_ownership crossed_contract no_ticks bar_unavailable future_bar : RuntimeError
  initial_crossed : RuntimeError
  raised_by_engine : String → RuntimeError

pub data Result (A : Type 0) : Type 0 where
  ok : A → Result A
  err : RuntimeError → Result A

infixl 5 ◌>>=◌
abbrev pub ◌>>=◌ : {A B : Type 0} → Result A → (A → Result B) → Result B
ok a >>= f = f a
err e >>= f = err e

-- A value whose checks have run.
abbrev pub unless_error : {A : Type 0} → Option RuntimeError → A → Result A
unless_error none a = ok a
unless_error (some e) a = err e

pub record Tick (Q : Type 0) : Type 0 where
  pub time : ℕ
  pub quote : Q

pub record Bar (P : Type 0) : Type 0 where
  pub open_time : ℕ
  pub close_time : ℕ
  pub prices : P

pub record StrategyState (S : Type 0) : Type 0 where
  pub profile_id : String
  pub strategy_id : String
  pub strategy_version : String
  pub as_of : ℕ
  pub sequence : ℕ
  pub inner : S

-- A decision, with the profile and the strategy of its signal plan if it has one.
pub record StrategyDecision : Type 0 where
  pub decision_id : String
  pub available_at : ℕ
  pub plan_owner : Option (String × String)

pub record EngineEvent : Type 0 where
  pub event_id : String
  pub available_at : ℕ
  pub profile_id : String
  pub strategy_id : String

pub record EngineOutput (S : Type 0) : Type 0 where
  pub next_state : StrategyState S
  pub decisions : List StrategyDecision
  pub events : List EngineEvent

-- A call of the engine, which may raise.
pub data EngineCall (S : Type 0) : Type 0 where
  output : EngineOutput S → EngineCall S
  failure : String → EngineCall S

-- `GuardResult`: a rejection has a reason, and an admission none.
pub data GuardResult : Type 0 where
  admits : GuardResult
  rejects : String → List String → GuardResult

pub data Kind : Type 0 where
  guard_rejected bar_catchup_rejected bar_closed decision engine_event : Kind

-- The texts of `event_id` behind the profile.
pub data EventId : Type 0 where
  numbered : ℕ → Kind → EventId
  bar_id : Timeframe → ℕ → EventId
  decision_id engine_id : String → EventId

pub record ReferenceEnvelope : Type 0 where
  pub event_id : EventId
  pub profile_id : String
  pub kind : Kind
  pub semantic_time : ℕ
  pub timeframe : Option Timeframe
  pub decision : Option StrategyDecision
  pub engine_event : Option EngineEvent
  pub reasons : List String

pub record BarRequest : Type 0 where
  pub profile_id : String
  pub timeframe : Timeframe
  pub open_time : ℕ
  pub close_time : ℕ

-- Buckets and cursors are pairs of a timeframe and an open time.
abbrev pub Opens : Type 0
Opens = List (Timeframe × ℕ)

pub record ReferenceRuntimeState (S Q : Type 0) : Type 0 where
  pub profile_id : String
  pub sequence : ℕ
  pub as_of : ℕ
  pub engine_state : StrategyState S
  pub last_tick : Option (Tick Q)
  pub buckets : Opens
  pub bar_cursors : Opens
  pub pending : List ReferenceEnvelope
  pub halted : Bool
  pub halt_reasons : List String

-- What `ReferenceProfileRuntime` is built from.
pub record ReferenceProfileRuntime (S Q P : Type 0) : Type 0 where
  pub profile_id : String
  pub maximum_catchup_bars : ℕ
  pub maximum_pending_events : ℕ
  pub same_quote : Q → Q → Bool
  pub evaluate : Tick Q → GuardResult
  pub on_bar_close : StrategyState S → Timeframe → Bar P → EngineCall S

abbrev pub has_frame : Timeframe → Opens → Bool
has_frame tf [] = false
has_frame tf ((u, _) ∷ rest) = same_frame tf u || has_frame tf rest

-- `len(set(frames)) != len(frames)`
abbrev pub repeats : Opens → Bool
repeats [] = false
repeats ((u, _) ∷ rest) = has_frame u rest || repeats rest

abbrev pub has_any {ℓ} : {A : Type ℓ} → List A → Bool
has_any [] = false
has_any (_ ∷ _) = true

abbrev pub differ : Bool → Bool → Bool
differ true b = not b
differ false b = b

module _ {S Q : Type 0} where
  -- The checks of `ReferenceRuntimeState.__post_init__`.
  abbrev pub made_tests : ReferenceRuntimeState S Q → List (Bool × RuntimeError)
  made_tests s =
      (is_empty s.profile_id, no_identity)
      ∷ (not (str_eq s.engine_state.profile_id s.profile_id), engine_crossed)
      ∷ (repeats s.buckets, duplicate_buckets)
      ∷ (repeats s.bar_cursors, duplicate_cursors)
      ∷ (differ s.halted (has_any s.halt_reasons), halt_inconsistent)
      ∷ []

  -- A state whose constructor has run.
  unfoldable pub made : ReferenceRuntimeState S Q → Result (ReferenceRuntimeState S Q)
  unfolding first_error
  made s = unless_error (first_error (made_tests s)) s
