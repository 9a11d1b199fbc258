-- ===== src/Examples/Bridge.antt =====
-- The event bridge on a concrete spool, with a reader that knows two lines.
use bot_ea.Base.{
  ℕ, ◌≡◌, ◌⊎◌, ◌↔◌, refl, true, false, none, some, List, [], ◌∷◌, ◌++◌, arith, str_eq,
  if◌then◌else◌, one_of, ◌+◌,
}
use bot_ea.Base.Int.{pos}
use bot_ea.Base.Text.{codes}
use bot_ea.Base.Split.{same_text}
use bot_ea.Bridge.Json.{
  Json, null, integer, text, object, Members, end, member, Raised, value_error, Conversion,
  converted, failed, Python, from_timestamp, to_int,
}
use bot_ea.Bridge.Envelope.{
  EngineEventEnvelope, Parse, parsed, raised, Raw, bytes, stored, from_json_line, canonical_members,
  canonical_json, from_members, validate, SchemaError, goldm_audience,
}
use bot_ea.Bridge.Contract.{
  IsAccepted, validate_exact, from_json_line-IsAccepted, from_json_line-canonical_json,
  from_members_uncaught,
}
use bot_ea.Bridge.Store.{
  Database, EventRow, DeliveryRow, pending, delivered, retry, IngestResult, Run, returned, aborted,
  ingest_spool, offset_row, or_zero, lines, ends_line,
}
use bot_ea.Bridge.Adjust.{sum_results}
use bot_ea.Bridge.Resume.{ingest_resumes, ingest_blocked}
use bot_ea.Bridge.Delivery.{
  RecipientPolicy, recipients, Sender, Progress, deliver_pending, position_types,
}
use bot_ea.Bridge.Recipients.{Distinct, recipients_private}
use bot_ea.Bridge.Once.{row_of, HasUniqueKeys}
use bot_ea.Bridge.Settled.{watch, deliver_pending_settled}

abbrev event : EngineEventEnvelope
event = record {
  schema_version = pos 1;
  event_id = "e-1";
  profile_id = "GOLDI";
  profile_version = "1";
  profile_fingerprint = "0123456789abcdef0123456789abcdef0123456789abcdef0123456789abcdef";
  event_type = "POSITION_OPENED";
  symbol = "GOLD.i";
  server_time = pos 1700000000;
  reason = "entry";
  audience = "goldi_approved";
  setup_id = "";
  signal_id = "";
  order_id = "";
  position_id = "7";
  payload = some end;
}

-- An object whose schema version is a text that is no number.
abbrev strange : Members
strange = member "schema_version" (text "one") (
    member "event_id" (text "e") (
      member "profile_id" (text "GOLDI") (
        member "profile_version" (text "1") (
          member "profile_fingerprint" (text "f") (
            member "event_type" (text "ENGINE_ERROR") (
              member "symbol" (text "GOLD.i") (
                member "server_time" (integer (pos 0))
                  (member "reason" (text "r") (member "audience" (text "internal") end)))))))))

abbrev pub good_line : List ℕ
good_line = codes "good\n"

abbrev strange_line : List ℕ
strange_line = codes "strange\n"

instance unfoldable pub reader : Python
reader = record {
  decode = λ line.
      if same_text line good_line
      then some "event"
      else if same_text line strange_line
      then some "strange"
      else none;
  loads = λ s.
      if str_eq s "event"
      then some (object (canonical_members event))
      else if str_eq s "strange"
      then some (object strange)
      else none;
  dumps = λ _. "event";
  int_of_text = λ _. failed value_error;
  int_of_real = λ _. converted (pos 0);
  show = λ _. "";
  nonzero = λ _. true;
}

abbrev policy : RecipientPolicy
policy = record { admin_chat_ids = "1" ∷ []; goldi_approved_chat_ids = "2" ∷ "1" ∷ [] }

abbrev empty : Database
empty = record { events = []; spool_offsets = []; rejected = []; deliveries = [] }

abbrev result : ℕ → ℕ → ℕ → ℕ → IngestResult
result i d r o = record { inserted = i; duplicates = d; rejected = r; acknowledged_offset = o }

abbrev event_1 : EventRow
event_1 = record {
  event_id = "e-1";
  profile_id = "GOLDI";
  event_type = "POSITION_OPENED";
  server_time = pos 1700000000;
  audience = "goldi_approved";
  raw_event = "event";
  delivery_state = pending;
}

abbrev pub ingested : Database
ingested = record empty { events = event_1 ∷ []; spool_offsets = ("a", 5) ∷ [] }

abbrev spool : List ℕ
spool = good_line ++ codes "go"

first_run : ingest_spool "a" (some spool) empty ≡ (returned (result 1 0 0 5), ingested)
unfolding ingest_spool from_json_line reader from_members bot_ea.Bridge.Envelope.has_all
    canonical_members bot_ea.Bridge.Envelope.caught bot_ea.Bridge.Envelope.timestamp_of to_int
    bot_ea.Bridge.Envelope.field_of bot_ea.Bridge.Envelope.payload_of
    bot_ea.Bridge.Envelope.uncaught bot_ea.Bridge.Envelope.checked bot_ea.Base.Errors.first_error
    bot_ea.Bridge.Json.to_str canonical_json
first_run = refl

abbrev ingested_twice : Database
ingested_twice = record ingested { spool_offsets = ("a", 10) ∷ [] }

ingest_resumes_example :
    ingest_spool "a" (some (spool ++ codes "od\n")) empty
    ≡ (returned (sum_results (result 1 0 0 5) (result 0 1 0 10)), ingested_twice)
unfolding ingest_spool from_json_line reader from_members bot_ea.Bridge.Envelope.has_all
    canonical_members bot_ea.Bridge.Envelope.caught bot_ea.Bridge.Envelope.timestamp_of to_int
    bot_ea.Bridge.Envelope.field_of bot_ea.Bridge.Envelope.payload_of
    bot_ea.Bridge.Envelope.uncaught bot_ea.Bridge.Envelope.checked bot_ea.Base.Errors.first_error
    bot_ea.Bridge.Json.to_str
ingest_resumes_example =
    ingest_resumes "a" spool (codes "od\n") empty ingested ingested_twice (result 1 0 0 5)
      (result 0 1 0 10) (omega arith) first_run refl

ingest_blocked_example :
    ingest_spool "a" (some (strange_line ++ good_line)) empty ≡ (aborted value_error, empty)
unfolding lines offset_row bot_ea.Bridge.Store.start_offset ends_line from_json_line reader
    from_members bot_ea.Bridge.Envelope.has_all bot_ea.Bridge.Envelope.caught
    bot_ea.Bridge.Envelope.timestamp_of to_int bot_ea.Bridge.Envelope.field_of
    bot_ea.Bridge.Envelope.payload_of bot_ea.Bridge.Envelope.uncaught
ingest_blocked_example =
    ingest_blocked "a" strange_line good_line strange_line [] empty value_error (omega arith) refl
      refl refl

event-IsAccepted : IsAccepted event
unfolding validate bot_ea.Base.Errors.first_error
event-IsAccepted = (validate_exact event).0 refl

from_json_line-IsAccepted_example : IsAccepted event
unfolding from_json_line reader from_members bot_ea.Bridge.Envelope.has_all canonical_members
    bot_ea.Bridge.Envelope.caught bot_ea.Bridge.Envelope.timestamp_of to_int
    bot_ea.Bridge.Envelope.field_of bot_ea.Bridge.Envelope.payload_of
    bot_ea.Bridge.Envelope.uncaught bot_ea.Bridge.Envelope.checked bot_ea.Base.Errors.first_error
    bot_ea.Bridge.Json.to_str bot_ea.Bridge.Json.optional_text
from_json_line-IsAccepted_example = from_json_line-IsAccepted (bytes good_line) event refl

from_json_line-canonical_json_example : from_json_line (stored "event") ≡ parsed event
unfolding from_timestamp reader canonical_json
from_json_line-canonical_json_example =
    from_json_line-canonical_json event event-IsAccepted refl refl

from_members_uncaught_example : from_members strange ≡ raised value_error
unfolding bot_ea.Bridge.Envelope.has_all bot_ea.Bridge.Envelope.timestamp_of to_int
    bot_ea.Bridge.Envelope.field_of bot_ea.Bridge.Envelope.payload_of reader
from_members_uncaught_example =
    from_members_uncaught strange (pos 0) none value_error refl refl refl refl

recipients_private_example :
    (str_eq event.audience "internal" ≡ false)
    × Distinct (recipients policy event)
    × ((one_of "2" policy.admin_chat_ids ≡ true)
        ⊎ ((one_of "2" policy.goldi_approved_chat_ids ≡ true)
            × (event.audience ≡ "goldi_approved")
            × (one_of event.event_type position_types ≡ true)
            × (str_eq event.profile_id "GOLDM" ≡ false)))
unfolding recipients
recipients_private_example = recipients_private policy event "2" refl

-- A sender that counts, and fails for one chat.
abbrev sender : Sender ℕ
sender chat e n = (if str_eq chat "1" then some "OSError" else none, n + 1)

abbrev sent_to_2 : DeliveryRow
sent_to_2 = record {
  event_id = "e-1";
  chat_id = "2";
  state = delivered;
  attempts = 1;
  last_error = none;
}

abbrev half_delivered : Database
half_delivered = record ingested { deliveries = sent_to_2 ∷ [] }

deliver_pending_settled_example :
    let after = (deliver_pending (watch "e-1" "2" sender) policy 100 half_delivered (false, 0)).1 in
    (row_of "e-1" "2" after.db.deliveries ≡ some sent_to_2)
    × (after.world.0 ≡ false)
    × HasUniqueKeys after.db.deliveries
unfolding bot_ea.Bridge.Delivery.has_delivery
deliver_pending_settled_example =
    deliver_pending_settled sender policy 100 half_delivered 0 "e-1" "2" sent_to_2 (refl, tt) refl
      refl
