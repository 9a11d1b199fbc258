-- ===== src/Polling/Report.antt =====
-- The end of a cycle of bot_ea/polling_runtime.py: the order's preflight and execution, and what they
-- write to the store.
use Prim.Native.String.{◌++◌}
use bot_ea.Base.{
  zero, Bool, true, false, not, ◌&&◌, Option, none, some, String, [], ◌∷◌, is_empty, is_none,
  one_of, str_eq, if◌then◌else◌,
}
use bot_ea.Base.Int.{pos}
use bot_ea.Base.Number.{Number, ◌=R◌, zero_R}
use bot_ea.Base.Calls.{Called, returned, raised}
use bot_ea.Polling.Models.{
  DecisionAction, add, reduce, close, cancel_pending, Ticket, number, text, RuntimeSnapshot,
  AiIntent, SizeResult, sized, lifecycle, PreflightResult, ExecutionResult, said, CycleAction,
  decided, execution_guard_rejected, precheck_rejected, approval_required, execution_rejected,
  execution_error, Phase, intent, guard, precheck, fill, send, OrderRow, PositionStatus, opened,
  added, reduced, closed, PositionRow, Row, execution_event, position_event, Ending, finished,
  Outcome, PollingRuntime,
}

-- `get(key, other)`, where the key may be missing.
abbrev pub get_or {ℓ} : {A : Type ℓ} → Option A → A → A
get_or none a = a
get_or (some x) a = x

-- `value or other` for a text.
abbrev pub text_or : Option String → String → String
text_or none other = other
text_or (some s) other = if is_empty s then other else s

-- `ticket or other`
abbrev pub is_given : Ticket → Bool
is_given (number (pos zero)) = false
is_given (number n) = true
is_given (text s) = not (is_empty s)

abbrev pub ticket_or : Option Ticket → Option Ticket → Option Ticket
ticket_or none other = other
ticket_or (some t) other = if is_given t then some t else other

abbrev pub is_cancel : DecisionAction → Bool
is_cancel cancel_pending = true
is_cancel _ = false

abbrev pub position_status : DecisionAction → PositionStatus
position_status close = closed
position_status reduce = reduced
position_status add = added
position_status _ = opened

-- The price of an entry and of an exit.
abbrev pub entry_of {ℓ} : {A : Type ℓ} → DecisionAction → Option A → Option A
entry_of close price = none
entry_of reduce price = none
entry_of _ price = price

abbrev pub exit_of {ℓ} : {A : Type ℓ} → DecisionAction → Option A → Option A
exit_of close price = price
exit_of _ price = none

abbrev pub final_phase : Option String → Phase
final_phase none = send
final_phase (some s) =
    if one_of s ("FILLED" ∷ "DRY_RUN_OK" ∷ "REJECTED" ∷ "ERROR" ∷ []) then fill else send

module _ {R E : Type 0} where
  -- A row, and what follows it.
  abbrev pub write : Row R → Outcome R E → Outcome R E
  write row o = record o { rows = row ∷ o.rows }

  abbrev pub end_with : Ending R → E → Outcome R E
  end_with ending e = record { rows = []; ending = ending; world = e }

  -- `return PollingCycleResult(...)` of a cycle that goes on.
  abbrev pub go_on : RuntimeSnapshot R → String → CycleAction → E → Outcome R E
  go_on s detail action e =
      end_with
        (finished
          (record { halted = false; detail = said detail; action = action; snapshot = some s }))
        e

module _ {R : Type 0} ⦃num : Number R⦄ where
  -- `value or other` for a number.
  abbrev pub number_or : Option R → R → R
  number_or none other = other
  number_or (some x) other = if x =R zero_R then other else x

  abbrev pub volume_of : SizeResult R → R
  volume_of (sized r) = r.normalized_volume
  volume_of (lifecycle r) = r.normalized_volume

  -- `entry_price or ask` of a BUY, and `bid` otherwise
  unfoldable pub intended_price : RuntimeSnapshot R → AiIntent R → R
  intended_price s i =
      if str_eq (get_or i.side "") "buy" then number_or i.entry_price s.ask else s.bid

  abbrev pub intent_row : RuntimeSnapshot R → AiIntent R → SizeResult R → OrderRow R
  intent_row s i size = record {
    phase = intent;
    status = "READY";
    side = i.side;
    volume = volume_of size;
    price = intended_price s i;
    quoted_price = none;
    executed_price = none;
    slippage_points = none;
    fill_latency_ms = none;
    order_ticket = none;
    deal_ticket = none;
    retcode = none;
    detail = text_or i.reason "execution intent created";
  }

  -- The result that stands in for a preflight that raises.
  abbrev pub preflight_failure : String → PreflightResult R
  preflight_failure exc = record {
    status = some "ERROR";
    retcode = some "";
    detail = some ("execution preflight failure: " ++ exc);
    request_price = none;
  }

  abbrev pub preflight_status : PreflightResult R → String
  preflight_status x = get_or x.status "UNKNOWN"

  unfoldable pub preflight_row :
      RuntimeSnapshot R → AiIntent R → SizeResult R → PreflightResult R → OrderRow R
  preflight_row s i size x = record (intent_row s i size) {
    phase = if str_eq (preflight_status x) "GUARD_REJECTED" then guard else precheck;
    status = preflight_status x;
    quoted_price = x.request_price;
    retcode = some (get_or x.retcode "");
    detail = get_or x.detail "";
  }

  -- The result that stands in for an execution that raises.
  abbrev pub execution_failure : String → ExecutionResult R
  execution_failure exc = record {
    status = some "ERROR";
    retcode = some "";
    detail = some ("execution runtime failure: " ++ exc);
    order = none;
    deal = none;
    position_ticket = none;
    request_ticket = none;
    realized_price = none;
    price = none;
    quoted_price = none;
    volume = none;
    slippage_points = none;
    fill_latency_ms = none;
    commission_cash = none;
    swap_cash = none;
  }

  abbrev pub execution_status : ExecutionResult R → String
  execution_status x = get_or x.status "UNKNOWN"

  -- `get("realized_price", get("price"))`
  abbrev pub executed_price : ExecutionResult R → Option R
  executed_price x = get_or x.realized_price x.price

  unfoldable pub execution_row :
      RuntimeSnapshot R → AiIntent R → SizeResult R → ExecutionResult R → OrderRow R
  execution_row s i size x = record (intent_row s i size) {
    phase = final_phase x.status;
    status = execution_status x;
    quoted_price = x.quoted_price;
    executed_price = executed_price x;
    slippage_points = x.slippage_points;
    fill_latency_ms = x.fill_latency_ms;
    order_ticket = x.order;
    deal_ticket = x.deal;
    retcode = some (get_or x.retcode "");
    detail = get_or x.detail "";
  }

  unfoldable pub position_row : AiIntent R → SizeResult R → ExecutionResult R → PositionRow R
  position_row i size x = record {
    broker_position_id =
        ticket_or x.position_ticket
          (ticket_or x.request_ticket (ticket_or i.position_ticket x.order));
    side = i.side;
    volume = get_or x.volume (some (volume_of size));
    status = position_status i.action;
    entry_price = entry_of i.action (executed_price x);
    exit_price = exit_of i.action (executed_price x);
    commission_cash = x.commission_cash;
    swap_cash = x.swap_cash;
  }

  abbrev pub moves_position : AiIntent R → ExecutionResult R → Bool
  moves_position i x =
      not (is_cancel i.action) && str_eq (execution_status x) "FILLED" && not (is_none x.order)

  module _ {E : Type 0} where
    abbrev pub executed_cycle : RuntimeSnapshot R → AiIntent R → E → Outcome R E
    executed_cycle s i e = go_on s "cycle executed" (decided i.action) e

    -- What follows the row of an execution.
    unfoldable pub after_execution :
        RuntimeSnapshot R → AiIntent R → SizeResult R → ExecutionResult R → E → Outcome R E
    after_execution s i size x e =
        let status = execution_status x in
        if str_eq status "APPROVAL_REQUIRED"
        then go_on s (get_or x.detail "operator approval required") approval_required e
        else if str_eq status "REJECTED"
        then go_on s (get_or x.detail "broker execution rejected") execution_rejected e
        else if str_eq status "ERROR"
        then go_on s (get_or x.detail "execution runtime failure") execution_error e
        else if moves_position i x
        then write (position_event (position_row i size x)) (executed_cycle s i e)
        else executed_cycle s i e

    unfoldable pub report :
        RuntimeSnapshot R → AiIntent R → SizeResult R → ExecutionResult R → E → Outcome R E
    report s i size x e =
        write (execution_event (execution_row s i size x)) (after_execution s i size x e)

    -- An execution that raises is reported as one that failed.
    unfoldable pub executed :
        RuntimeSnapshot R → AiIntent R → SizeResult R → Called (ExecutionResult R) E → Outcome R E
    executed s i size (returned x e) = report s i size x e
    executed s i size (raised exc e) = report s i size (execution_failure exc) e

    module _ (p : PollingRuntime R E) where
      -- What follows the row of a preflight.
      unfoldable pub after_preflight :
          RuntimeSnapshot R → AiIntent R → SizeResult R → PreflightResult R → E → Outcome R E
      after_preflight s i size x e =
          if str_eq (preflight_status x) "GUARD_REJECTED"
          then go_on s (get_or x.detail "execution guard rejected") execution_guard_rejected e
          else if not (str_eq (preflight_status x) "PRECHECK_OK")
          then go_on s (get_or x.detail "broker precheck rejected") precheck_rejected e
          else executed s i size (p.execute s i size x e)

      unfoldable pub checked :
          RuntimeSnapshot R → AiIntent R → SizeResult R → PreflightResult R → E → Outcome R E
      checked s i size x e =
          write (execution_event (preflight_row s i size x)) (after_preflight s i size x e)

      unfoldable pub preflighted :
          RuntimeSnapshot R → AiIntent R → SizeResult R → Called (PreflightResult R) E → Outcome R E
      preflighted s i size (returned x e) = checked s i size x e
      preflighted s i size (raised exc e) = checked s i size (preflight_failure exc) e

      -- The attempt of an order, from its first row on.
      unfoldable pub attempt : RuntimeSnapshot R → AiIntent R → SizeResult R → E → Outcome R E
      attempt s i size e =
          write (execution_event (intent_row s i size))
            (preflighted s i size (p.preflight s i size e))
