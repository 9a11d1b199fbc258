-- ===== src/Bridge/Delivery.antt =====
-- gold_event_bridge/bridge.py: who receives an event, and the delivery of the pending events. The
-- text of a message (`format_message`) is part of the sender here: a sender is given the event.
use Prim.Native.Nat.{Ordering}
use Prim.Native.String.{compare}
use bot_ea.Base.{
  ℕ, ◌+◌, Bool, true, false, Option, none, some, String, List, [], ◌∷◌, ◌++◌, ◌&&◌, ◌||◌, not,
  str_eq, if◌then◌else◌, one_of, take,
}
use bot_ea.Bridge.Json.{Python, Raised}
use bot_ea.Bridge.Envelope.{
  SchemaError, parsed, refused, raised, EngineEventEnvelope, stored, from_json_line,
}
use bot_ea.Bridge.Store.{
  DeliveryState, pending, suppressed, delivered, retry, is_pending, is_delivered, EventRow,
  DeliveryRow, Database,
}

-- `tuple(dict.fromkeys(keys))`: each key once, in the order of the first occurrence.
unfoldable pub without : String → List String → List String
without k [] = []
without k (j ∷ js) = let rest = without k js in if str_eq j k then rest else j ∷ rest

unfoldable pub from_keys : List String → List String
unfolding without
from_keys [] = []
from_keys (k ∷ ks) = k ∷ without k (from_keys ks)

pub record RecipientPolicy : Type 0 where
  pub admin_chat_ids : List String
  pub goldi_approved_chat_ids : List String

abbrev pub notified_types : List String
notified_types =
    "ENGINE_STARTED" ∷ "PROFILE_VALIDATED" ∷ "ENTRY_REJECTED" ∷ "POSITION_OPENED"
    ∷ "POSITION_PARTIALLY_CLOSED" ∷ "POSITION_CLOSED" ∷ "ENGINE_ERROR" ∷ "RECOVERY_COMPLETED" ∷ []

abbrev pub position_types : List String
position_types = "POSITION_OPENED" ∷ "POSITION_PARTIALLY_CLOSED" ∷ "POSITION_CLOSED" ∷ []

-- `RecipientPolicy.recipients`
unfoldable pub recipients : RecipientPolicy → EngineEventEnvelope → List String
unfolding from_keys
recipients p e =
    if not (one_of e.event_type notified_types) || str_eq e.audience "internal"
    then []
    else if str_eq e.profile_id "GOLDM"
    then from_keys p.admin_chat_ids
    else if str_eq e.audience "goldi_approved" && one_of e.event_type position_types
    then from_keys (p.admin_chat_ids ++ p.goldi_approved_chat_ids)
    else from_keys p.admin_chat_ids

-- `UPDATE engine_events SET delivery_state=? WHERE event_id=?`
unfoldable pub set_event_state : String → DeliveryState → List EventRow → List EventRow
set_event_state k st [] = []
set_event_state k st (r ∷ rows) =
    (if str_eq r.event_id k then record r { delivery_state = st } else r)
    ∷ set_event_state k st rows

abbrev pub is_row : String → String → DeliveryRow → Bool
is_row k chat d = str_eq d.event_id k && str_eq d.chat_id chat

unfoldable pub has_delivery : String → String → List DeliveryRow → Bool
has_delivery k chat [] = false
has_delivery k chat (d ∷ ds) = is_row k chat d || has_delivery k chat ds

-- `INSERT OR IGNORE INTO deliveries(event_id, chat_id)`
unfoldable pub insert_delivery : String → String → List DeliveryRow → List DeliveryRow
unfolding has_delivery
insert_delivery k chat ds =
    if has_delivery k chat ds
    then ds
    else ds
      ++ (record { event_id = k; chat_id = chat; state = pending; attempts = 0; last_error = none }
          ∷ [])

unfoldable pub insert_deliveries : String → List String → List DeliveryRow → List DeliveryRow
unfolding insert_delivery
insert_deliveries k [] ds = ds
insert_deliveries k (chat ∷ chats) ds = insert_deliveries k chats (insert_delivery k chat ds)

-- `SELECT chat_id FROM deliveries WHERE event_id=? AND state!='DELIVERED'`, in the table's order
unfoldable pub undelivered : String → List DeliveryRow → List String
undelivered k [] = []
undelivered k (d ∷ ds) =
    let rest = undelivered k ds in
    if str_eq d.event_id k && not (is_delivered d.state) then d.chat_id ∷ rest else rest

-- `ORDER BY chat_id`, by code points.
abbrev text_le : String → String → Bool
text_le s t = elim (compare s t) [ Ordering.gt ↦ false | _ ↦ true ]

unfoldable pub insert_sorted : String → List String → List String
insert_sorted k [] = k ∷ []
insert_sorted k (j ∷ js) = if text_le k j then k ∷ j ∷ js else j ∷ insert_sorted k js

unfoldable pub sorted : List String → List String
unfolding insert_sorted
sorted [] = []
sorted (k ∷ ks) = insert_sorted k (sorted ks)

-- The update of one row after an attempt: no error, or the name of the exception.
abbrev pub attempted : Option String → DeliveryRow → DeliveryRow
attempted none d = record d { state = delivered; attempts = d.attempts + 1; last_error = none }
attempted (some why) d = record d {
  state = retry;
  attempts = d.attempts + 1;
  last_error = some why;
}

unfoldable pub record_attempt :
    String → String → Option String → List DeliveryRow → List DeliveryRow
record_attempt k chat outcome [] = []
record_attempt k chat outcome (d ∷ ds) =
    (if is_row k chat d then attempted outcome d else d) ∷ record_attempt k chat outcome ds

-- Why `deliver_pending` ends early: a stored event does not parse.
pub data Stop : Type 0 where
  schema : SchemaError → Stop
  other : Raised → Stop

-- The sender raises an exception, of which the bridge keeps the type's name, or returns; `E` is
-- whatever it acts on.
abbrev pub Sender : Type 0 → Type 0
Sender E = String → EngineEventEnvelope → E → Option String × E

-- The database, what the sender acts on, and the two counts.
pub record Progress (E : Type 0) : Type 0 where
  pub db : Database
  pub world : E
  pub delivered : ℕ
  pub failed : ℕ

abbrev pub with_deliveries : List DeliveryRow → Database → Database
with_deliveries ds db = record db { deliveries = ds }

abbrev pub with_event_state : String → DeliveryState → Database → Database
with_event_state k st db = record db { events = set_event_state k st db.events }

abbrev pub is_nil : List String → Bool
is_nil [] = true
is_nil (_ ∷ _) = false

module _ {E : Type 0} (send : Sender E) where
  -- One attempt: `try ... except ... else` around the sender.
  unfoldable pub attempt : EngineEventEnvelope → String → Progress E → Progress E
  unfolding record_attempt
  attempt e chat p =
      let (outcome, world') = send chat e p.world in
      let db' = with_deliveries (record_attempt e.event_id chat outcome p.db.deliveries) p.db in
      elim outcome [
        | none ↦ record p { db = db'; world = world'; delivered = p.delivered + 1 }
        | some _ ↦ record p { db = db'; world = world'; failed = p.failed + 1 }
      ]

  unfoldable pub attempt_all : EngineEventEnvelope → List String → Progress E → Progress E
  unfolding attempt
  attempt_all e [] p = p
  attempt_all e (chat ∷ chats) p = attempt_all e chats (attempt e chat p)

  -- The event is done when no delivery of it is outstanding.
  unfoldable pub finish_event : EngineEventEnvelope → Progress E → Progress E
  unfolding undelivered set_event_state
  finish_event e p =
      if is_nil (undelivered e.event_id p.db.deliveries)
      then record p { db = with_event_state e.event_id delivered p.db }
      else p

  -- The body of the loop for one event.
  unfoldable pub deliver_event : RecipientPolicy → EngineEventEnvelope → Progress E → Progress E
  unfolding recipients set_event_state insert_deliveries undelivered sorted attempt_all finish_event
  deliver_event policy e p =
      if is_nil (recipients policy e)
      then record p { db = with_event_state e.event_id suppressed p.db }
      else (let ds = insert_deliveries e.event_id (recipients policy e) p.db.deliveries in
          let p' : Progress E = record p { db = with_deliveries ds p.db } in
          finish_event e (attempt_all e (sorted (undelivered e.event_id ds)) p'))

-- `EventStore.pending_events`
unfoldable pub pending_events : List EventRow → List EventRow
pending_events [] = []
pending_events (r ∷ rows) =
    let rest = pending_events rows in if is_pending r.delivery_state then r ∷ rest else rest

module _ ⦃py : Python⦄ {E : Type 0} (send : Sender E) where
  unfoldable pub deliver_rows :
      RecipientPolicy → List EventRow → Progress E → Option Stop × Progress E
  unfolding deliver_event
  deliver_rows policy [] p = (none, p)
  deliver_rows policy (r ∷ rows) p = elim (from_json_line (stored r.raw_event)) [
    | parsed e ↦ deliver_rows policy rows (deliver_event send policy e p)
    | refused why ↦ (some (schema why), p)
    | raised x ↦ (some (other x), p)
  ]

  -- `EventBridge.deliver_pending`
  unfoldable pub deliver_pending : RecipientPolicy → ℕ → Database → E → Option Stop × Progress E
  unfolding deliver_rows pending_events
  deliver_pending policy limit db world =
      deliver_rows policy (take limit (pending_events db.events))
        (record { db = db; world = world; delivered = 0; failed = 0 })
